-- ===== src/Lib.antt =====
-- tmuxicate runs a team of coding agents in tmux panes. A coordinator splits a goal into child tasks;
-- the program routes each task to an agent, mails it through files of a session directory, and follows
-- what the owners declare: accepted, waiting, blocked, done. This library models the core of that
-- program and proves what makes it correct.
--
-- Parts and files:
--   Prelude, Text: lists, results, sorting, Go's 64-bit integers with their wrap-around, and Go strings
--     as lists of code points (valid UTF-8; string order is the order of code points).
--   Protocol: internal/protocol. Enums and Documents hold its types (a string type with an unknown
--     value is the constructor `other`; a time is a number of nanoseconds, 0 for the zero time; a
--     pointer that may be nil is an Option). Ids is ids.go with the checks of generated identifiers,
--     Domains is NormalizeRouteDomains, and Validation holds the Validate methods, their checks in the
--     order of the source. An error keeps its fixed text and its wrapping; names quoted in an error
--     are left out. A method that rewrites its receiver returns the new document. Receivers are not nil.
--   Config: internal/config. Config holds the records of config.go; Defaults is applyDefaults and the
--     paths that Resolve sets, over a parameter for path/filepath; Loader is Config.Validate, Resolve and
--     LoadResolved behind the reading of the file, with the YAML parser a parameter.
--   Mailbox: internal/mailbox/store.go and coordinator_store.go. Files are a list of paths with contents; Io is a system call
--     over them that may fail, as a list of faults says; Write is writeFileAtomically; Store is
--     CreateReceipt, ReadReceipt, UpdateReceipt and MoveReceipt, for agents and messages whose names have
--     no character that filepath.Glob expands. The lock excludes other writers, so an
--     operation runs alone; releasing it cannot change a file. YAML is a parameter, Codec, with the one
--     assumption that a document that was written reads back as itself; Samples/Packing is an instance.
--     Messages is ReadMessage. Sequence is AllocateSeq, over a parameter for strconv.ParseInt that reads back what fits in 64
--     bits. Coordinator is coordinator_store.go; its Tables are the abstract view of the cases, handoffs
--     and replans of a run, which forgets the files and their order.
--   Session: Blockers is the blocker policy of internal/session/task_cmd.go: prepareBlockerCase, selectBlockerAction and
--     recordCoordinatorBlocker, whose result of rerouteBlockerTask is an argument. Reroutes is
--     rerouteBlockerTask, which puts the receipt of the task aside and back. ResolveOptions and
--     Resolution are BlockerResolve of internal/session/blocker_resolve.go. Services is the interface
--     through which both call RouteChildTask, Send and the loading of the configuration; KeepsCases is
--     what is assumed of these: they write no blocker case. Configured is what the session gets from
--     a validated configuration. Tasks is ReadMsg of internal/session/read_msg.go, and TaskAccept and
--     loadActiveTask of internal/session/task_cmd.go; the loading of the configuration and the log of
--     events are fields of TaskServices, assumed to write no message and no receipt. Adaptive and Preferences are BuildAdaptiveRoutingPreferences of
--     internal/session/run_adaptive.go; the run graphs, their summaries and what it reads of the state
--     directory are fields of AdaptiveEnv, and weights and scores wrap as a Go int of 64 bits does. Targets is the
--     resolution and availability of execution targets, internal/session/run.go and target.go. Routing
--     is the selection of an owner in internal/session/run.go, up to PreviewRouteChildTask.
--     What routing reads of the state directory (runs, tasks, receipts, target states, preferences), the
--     clock, time.Parse and the printing of durations and quoted names are fields of RouteEnv and
--     TargetEnv, arbitrary functions in every theorem.
--   Samples: the theorems applied to concrete documents, files and configurations.
--
-- The session calls Protocol to validate what it builds, Mailbox to store it, and Config for its policy.
-- Every loop is a recursion on the list that it runs over, except the printing of decimals, whose fuel is
-- one more than the number printed, which has fewer digits.
--
-- Not modelled: tmux and the adapters that read terminals, the daemon's timers and file watching, the
-- command line, session start and stop, the YAML and JSON formats, the writing of messages, the
-- command that finishes a task and the events that commands log, the steps of review handoffs, and the
-- summaries and timelines of runs.
pub mod Prelude
pub mod Text
pub mod Protocol
pub mod Config
pub mod Mailbox
pub mod Session
pub mod Samples
