-- ===== src/Lib.antt =====
-- Verification of the process guard of dracon-system, the daemon that watches disk, memory and
-- processes of one machine and mitigates what it finds by renicing, OOM bias, CPU quotas, pruning,
-- ending leaked processes and stashing directories.
--
-- Parts and files, with the paths of the repository:
-- - Common: names of the libraries, Boolean tests, lists, `i32` values, maps as association lists
--   (Common/Table), saturating `u64` arithmetic and instants in nanoseconds (Common/Words).
-- - Policy (src/policy.rs): the numeric knobs of GuardPolicy by section. Policy/Knobs holds the four
--   macros floor!, ceil!, band! and fband! of normalize_guard_policy_with_home and the two gates below
--   the action threshold; Policy/Disk, Policy/Limits and Policy/Guard hold the sections in their
--   order. A float is an exact multiple of 2^-1074 or an infinity or a NaN (Policy/Float).
-- - DiskState (src/main.rs): disk_state, and manage_sync_freeze with its marker file.
-- - Pressure (src/main.rs): MemorySample, classify_memory_pressure, stabilize_memory_pressure_at.
-- - Nice (src/main.rs): graduated_nice_value and memory_offender_nice_value.
-- - Process (src/main.rs): identities, nearest_biased_ancestor and process_is_descendant_of. The walks
--   take at most 1024 rounds, as the source's do.
-- - Runtime (src/main.rs): the tables of GuardRuntimeState that hold mitigations. Runtime/Plan is
--   runtime_adjustment_plan, Runtime/Restore is restore_runtime_adjustments_with_samples and
--   Runtime/Reload is restore_runtime_adjustments, which gives up where renice or systemctl cannot be
--   resolved, and apply_policy_reload, called as the daemon calls them.
-- - Oom (src/main.rs, src/oom_restore.rs): Oom/File is oom_restore::restore, Oom/Sweep is
--   restore_pending_oom_descendants and sweep_stranded_oom_descendants.
-- - Lease (src/cpu_limit.rs): Lease/Cap is cap_prepared, Lease/Release is release_with.
-- - Notify (src/main.rs): should_notify, cleanup_stale_cooldowns, report_state_transition.
-- - Nix (src/main.rs): nix_generations_to_delete_protecting.
-- - Growth (src/service_growth.rs): the history that Tracker::observe keeps of one service, at most 32
--   points.
-- - Reap (src/reap.rs, src/forgotten.rs): the reaper. Reap/Proc reads the texts of one process, Reap/Table
--   the process table and its descendants, Reap/Browser the command lines and sockets of browsers,
--   Reap/Tree is scan_forgotten_orphan_trees, Reap/Verify the checks again before a signal, Reap/Kill
--   terminate_process and terminate_tree, and Reap/Pass the three passes that call them.
-- - Safety (src/safety.rs): check_safe_to_delete_guard and the checks beside it.
-- - Stash (src/stash.rs, src/relocate.rs): Stash/FileSystem is the disk, with walk_stats and copy_tree;
--   Stash has stash_move_inner and stash_restore, Stash/Listing stash_list, stash_expire_detailed,
--   stash_purge and replace_older_auto_generations.
-- - GitTemp (src/git_temp.rs, src/main.rs): GitTemp/Scan is find_git_temp_files, GitTemp/Owner
--   live_git_owners and git_owner_for, GitTemp/Clean clean_git_temp_files and the pass that calls it.
-- - Tests: concrete runs, and the theorems applied to concrete data.
--
-- A reload first restores what it can (Runtime/Restore). The restoration releases CPU leases, sweeps the
-- OOM descendants (Oom/Sweep), and works through the plan (Runtime/Plan); its answer decides whether
-- the new policy is adopted (Runtime/Reload), normalised by Policy/Guard.
--
-- The reaper's passes scan one table (Reap/Table, Reap/Tree), take each tree that the scan reports, check
-- its members again on the state of that moment (Reap/Verify), and signal them (Reap/Kill); the rows
-- they report are built from the outcomes (Reap/Pass). The stash asks Safety for the resolved path
-- before it moves anything.
--
-- What the operating system answers is an input: `/proc`, the OOM file, renice, systemd, the clock,
-- and every read and write of a file. Each stands as a field of a record (Answers, Host, AdjFile,
-- MarkerIo), one for each call where the answers may differ, and a write may also take place though
-- an error is reported. A pass of the sweep and of the restoration asks about one process with one
-- answer. A process root is a record of the texts of each process, and the kernel of Reap/Kill is a
-- record of calls on a state of any type, so that every answer may depend on all calls before it; it
-- logs each signal with its answer. A check before a signal reads the process root of one state,
-- though the source reads its files one after the other. The disk of the stash is a list of paths
-- and nodes, where a path is its components; which entries a copy or a removal fails on is an input
-- (Io), the removal of a restored manifest included. The directories of GitTemp are trees of
-- entries, with what is shown through a link; a removal takes a path away once, and may fail. Maps
-- are lists with one entry for each inserted key. Percentages, sizes and seconds are natural
-- numbers; where the source saturates or wraps, the model does it too. Fuel stands in the walks over
-- ancestors, whose bound is the source's own, in the worklist of descendants, with one round for
-- each entry of the table and the root, which is enough since an entry is taken once, and in the
-- wait for a signalled process, whose number of polls is the source's.
--
-- Not modelled: the loading of the policy file and the paths and lists in it, the scans of the disk, the
-- choice of offenders, the mitigation ledger's file, the cleanup of caches, the steps of a
-- relocation and of links, the choice of the name of a stash entry, the events, and the commands that
-- print. An instant is a number, so the panic of `Instant + Duration` on overflow in should_notify is
-- left out.
pub mod Common
pub mod Policy
pub mod DiskState
pub mod Pressure
pub mod Nice
pub mod Process
pub mod Runtime
pub mod Oom
pub mod Lease
pub mod Notify
pub mod Nix
pub mod Growth
pub mod Reap
pub mod Safety
pub mod Stash
pub mod GitTemp
pub mod Tests
