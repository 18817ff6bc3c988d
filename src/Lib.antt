-- ===== src/Lib.antt =====
-- The logo admin: its category editor, with the planner that turns a draft of the category tree
-- into a declarative plan for each store and the run engine that applies the plans; the quotas of
-- its assistant; and the product mixes of the stores. Paths are from the repository's root.
--
-- Planner (logo-admin/categories_planner.py, and normalize_wp_name of
-- logo-admin/categories_draft.py). Each part is a file of Planner/: Dispositions
-- (load_dispositions), Survivors (_elect_survivors), Terms (the loop of build_blog_plan over the
-- live terms, as a state PlanState with one function for each branch), Creates, Memberships,
-- Redirects, Plan (build_blog_plan as a whole, refusals included) and Collisions
-- (_plan_slug_collisions, _plan_recreated_slugs). A set or a dict of the program is a list without
-- repetitions or an association list in insertion order (Prelude/Lists, Prelude/Dicts); a text is
-- a list of code points. The rows that build_blog_plan reads by SQL are the fields of BlogInput;
-- html.unescape and str.upper are parameters of every definition that uses them.
--
-- Runs (logo-admin/categories_runs.py). Runs/Types has the tables catmgr.run and catmgr.run_job as
-- a Store. Runs/Readiness and Runs/Store have readiness, _require_ready and _assert_env_exclusive;
-- Runs/Controls create_run, request_pause, resume, start, cancel, retry_job, skip_job and
-- _finish_run; Runs/Engine _claim_next_job, _finish_job, process_run and recover_runs. An
-- operation returns the store after its transaction, or the reason for which it is refused.
-- Runs/Restores has _restore_pages. Clock, worker token and what WordPress reports are arguments.
-- Runs/Steps has the operations as a step relation, since people, workers and the startup recovery
-- interleave them freely; each of them is one step, as the environment lock and the row locks make
-- it (request_pause and cancel take no lock, and what a race within them may do is left out).
-- create_run takes the plans of Planner/Plan, and the outcome of the preview, as arguments.
--
-- Draft (logo-admin/categories_draft.py). Draft/Nodes has the rows of catmgr.node,
-- _assert_no_cycle and _resequence_siblings, Draft/Moves move_node, Draft/Slugs
-- clean_category_name and slugify, Draft/Edits create_node and update_node with _slug_owner and
-- _carry_identity_mapping, Draft/Overrides set_override and delete_override. What the snapshots
-- say of slugs and paths is an argument. The order of names is the database's collation, a
-- parameter, as are html.unescape and str.lower; Draft/Sound has the edits as a step relation.
-- Draft/Rooted and Draft/Tree have what a tree is: each chain of parents ends at the root level.
--
-- Quotas (logo-admin/quotas.py, and what cleanup of logo-admin/maintenance.py deletes in the same
-- tables). Quotas/Types has the usage tables and the reservations, Quotas/Reserve reserve,
-- Quotas/Settle reconcile, retain, mark_provider_started and the sweep, Quotas/Cleanup the deletes
-- of the cleanup. An operation gives the tables after its transaction, or the error that rolls it
-- back (Outcomes). Quotas/Balance says what booked tokens have to do with reservations,
-- Quotas/Accounts what they do once cleanups have deleted some; Quotas/Steps has the operations
-- and cleanups as a step relation on the tables and the handles that callers hold. The uuid, the
-- clock and the settings are arguments.
--
-- Product mixes. Mix/Types has the tables, Mix/Seeds and Mix/Service logo-admin/mix_service.py,
-- Mix/Commands the commands on product mixes of logo-admin/mutations.py, Mix/Routes the routes of
-- logo-admin/routes_api.py that write, and Mix/Styles the configuration of one style
-- (mix_style_universe of logo-admin/queries.py, _mix_clean_style_config). put_mix_styles and
-- delete_mix_styles are the routes add_mix_styles and remove_mix_styles. Mix/Steps has all writes
-- as a step relation, beside the refreshes of the warehouse; each write is one step, as the lock
-- on the store's row makes it. str.upper, str.lower and the database's upper(btrim(s)) are the
-- parameter Letters.
--
-- Bounds and fuel. normalize_wp_name decodes at most five times, as the program does. depth_of
-- makes at most eleven rounds, the bound that the program's own break gives. decimal has fuel for
-- one more digit than its number, which is enough since each digit divides the number by ten.
-- process_run goes along a schedule with the clock, the token and the outcome of each round.
-- _assert_no_cycle climbs for one round more than there are nodes, since each round sees another
-- one. The search for a free slug tries one more than there are nodes and overrides, of which each
-- owns one at most. Times are seconds, and ids natural numbers; PostgreSQL's own bounds on them
-- are left out.
--
-- Not modelled: the calls to WordPress and the execution of a job (_execute_job), restores, of
-- which a job has only state and heartbeat, the redirect rows and payloads that create_run stores,
-- texts of messages and details of audit rows, the preview with its acknowledgements, delete_node,
-- seed_from_snapshot and effective_tree of the draft and the mapping editor, and of the logo admin
-- all that is not named above: the logo editor, the agent, the other routes and the warehouse
-- pull. Of the quotas, the asyncio wrapper of reserve and the sweep's counts; what the retention
-- cleanup of logo-admin/maintenance.py deletes in other tables; of the product mixes, who changed
-- a row and when, the audit rows and the routes that only read.
pub mod Prelude
pub mod Outcomes
pub mod Planner
pub mod Runs
pub mod Draft
pub mod Quotas
pub mod Mix
