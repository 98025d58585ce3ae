-- ===== src/Lib.antt =====
-- userfreezer: a frozen view of a directory tree, with an overlay that takes every change.
--
-- `DeepFreezer` (deepfreezer.py) freezes a target directory: from then on `write`, `mkdirs` and
-- `remove` go to an overlay beside it, `read`, `exists`, `is_dir`, `size` and `iterdir` show target
-- and overlay as one tree, and `thaw` discards the overlay. A journal makes the overlay survive a crash.
--
-- Files:
--   Prelude         lists, texts (lists of code points), dictionaries in order of insertion
--   Core/RelPath    `_norm`, `_commit_parts`
--   Core/PayloadId  the IDs of payloads, `"%016d"`
--   Core/Overlay    the overlay directory: manifest.json, journal.log, payloads/, files/, md/, del/
--   Core/Journal    `_load_journal`
--   Core/Classify   `_classify`; its child modules: what one more operation changes in the answers
--   Core/Instance   the fields of `DeepFreezer` with the disk, `_require_frozen`, `_put_payload`, `_journal`
--   Core/Api        `write`, `read`, `mkdirs`, `remove`, `exists`, `is_dir`, `size`
--   Core/Listing    `iterdir`, `diff`, `status`, `verify`
--   Core/Lifecycle  `_open`, `freeze`, `thaw`, `_finish_discard`, `close`
--   Core/Invariant  the well-formedness of an instance on its disk, and that each operation keeps it
--   Core/Session    operations in any order
--   Core/Crash      a `write` that a crash cuts off
--   Core/Unjournaled  a `write` whose append to the journal raises
--   Core/TornTail   a `write` after a crash that tore the journal's last line
--   Core/Commit     `_apply_commit`, `_commit_posix` and what they call, on a tree with links
--   Core/Views      what a caller sees after an operation
--   Ledger/Files    nt_commit_checkpoint_experimental.py: the files of a commit's ledger
--   Ledger/Intent   `_describe_plan`, `_intent_record`, `_parse_intent`; RoundTrip
--   Ledger/Inspect  `_inspect_open_store`
--   Ledger/Execute  `apply_checkpointed_plan_experimental` after its checks
--   Ledger/Shape, Reached, Safety, Liveness, Blocking  what the inspector says of a run that ended anywhere
--   Plan            nt_commit_experimental.py, win32_relative_directory.py: the validation of a plan
--   Plan/Paths      that validation and `_commit_parts` of deepfreezer.py
--   Plan/Checked    what an accepted plan is
--   Plan/Apply      nt_commit_experimental.py: `apply_plan_experimental`, over any answers of the calls that
--                   take a handle; its calls (Confined), what it reports (Done)
--   Nt/Root         nt_enrollment_experimental.py: `_canonical_root`
--   Nt/Identity     `_checked_identity`
--   Nt/Sealed       `seal_root_identity` and `unseal_root_identity`, with DPAPI as parameters; Bound
--   Nt/Source       nt_overlay_payload_experimental.py: `_parse_overlay_source`
--   Nt/Bridge       nt_commit_bridge_experimental.py: `prepare_native_plan`, its bounds and when it succeeds
--   Nt/Pinned       nt_overlay_journal_experimental.py: `_parse_pinned_metadata`; its loop against that of
--                   deepfreezer.py (Loop, Strict), its entries as a plan (Planned, Agreed), Stale
--   Admin/Broker    admin_ipc.py: `Broker.process` for prepare, freeze, discard and commit
--   Admin/Nonces, Confirmed, Prepared, Bound  the confirmations of the broker
--   Health          enforcement_health.py: `health_summary`
--   Enforce         packaging/linux/deepfreezerd.py: `enforce_all` over the core and Health (Opened, Fresh)
--   Windows/Detect  packaging/windows/os_detect.py: `classify`
--   Windows/Uwf     uwf_ipc_lab.py: inspection and staging of the write filter; Staged
--   Release/Gate    packaging/release_acceptance_gate.py: `validate_v020_acceptance` and `main`; Accepted
--   Admin/Decode    admin_ipc.py: `decode_message`, `load_targets`
--   Admin/Process   admin_ipc.py: `Broker.process` from the bytes on, with the write filter; Guarded,
--                   and Bound for the number of nonces
--   Admin/Wire      admin_ipc.py: `wire_send` and `wire_receive`, their round trip
--
-- A method takes the instance with its disk and returns a result and the new instance, also where it
-- raises. The target is a record of functions, what `os.path` and `open` answer for it. The lock, the
-- end of `shutil.rmtree` and the time are inputs. Numbers in a journal are naturals. Sequences are
-- below 10^32, where a payload ID still has the 32 digits that the loader accepts. A rename takes
-- place whole or not at all, and a line of the journal may be cut anywhere.
--
-- A call of `write`, `mkdirs` or `remove` is told how what it writes is stored: a payload or marker
-- may not be placed, and the append to the journal may raise and leave nothing, a part or all of its line.
-- The names without `_with` are the operations where all is stored. A session
-- may hold any of these; Core/Unjournaled is about an append that raises.
--
-- The executor of a commit takes the list of how its effects end, so a crash is a list that ends. A
-- creation in the store that fails may leave any bytes. `json.dumps` and what `_parse_intent` answers
-- are parameters of the executor and the inspector; Ledger/Intent has that function itself. The
-- executor of a plan takes what each of its calls answers as a function of all calls before it.
--
-- Not modelled: the branches for Windows of deepfreezer.py, in `thaw` the writes of
-- `_apply_commit` (its result is an input there), the ledger's check that its directories are
-- apart, the reports on incidents of a commit, the store of enrollments, the sockets, pipes and
-- clients of the broker, the sessions of overlayfs, the Windows service, the graphical interface,
-- the probes and the native code. They are other programs, or calls of the system.
pub mod Prelude
pub mod Core
pub mod Ledger
pub mod Admin
pub mod Plan
pub mod Health
pub mod Enforce
pub mod Windows
pub mod Release
pub mod Nt
