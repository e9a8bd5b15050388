-- ===== src/Lib.antt =====
-- opencode-reviewer is a pair of programs that let language models review merge requests. The
-- reviewer prepares the diff of a branch, runs several reviewing agents and a finalizing one over
-- an opencode server, moves the findings to the lines of the diff that they are about, and
-- publishes them as notes on GitLab. The comment warrior reads the discussions under those notes
-- and answers, resolves or reopens them. This library models the logic of both.
--
-- Which file models which part:
--   Prelude, GoText, GoInt: shared helpers; the functions of Go's strings package and of
--     encoding/base64 on lists of bytes, and Go's int with its wrap-around at 64 bits.
--   Models: internal/shared/models.
--   Diff: internal/shared/diff. Types has the records; Parse is parse.go (parseFiles,
--     splitDiffSections, parseOneFile, stripDiffHeaders, parseDiffHeader); Filter is filter.go;
--     Prepare is Prepare and EstimateTokens of diff.go, over a record of the git client's answers.
--   Vcs: internal/shared/vcs. Lines is parseDiffLines of normalizer.go, Match the search of code in
--     a diff (searchAndCorrect), Resolve the search of a file (resolveFileLines), Normalizer the
--     operations NewNormalizer, Normalize and NormalizeDiff. Marker is marker.go with its regular
--     expression written out as a matcher, Format is format.go and mapper.go.
--   Gitlab: internal/shared/vcs/gitlab. Publish is publisher.go as the list of the calls that it
--     makes; a record of functions on the calls made before stands for the answers. Client has the
--     loops over pages of client.go, ListDiscussions and ClearMRComments, over a server with a
--     state.
--   Warrior: internal/commentwarrior. Classifier is classifier.go, Decision is decision.go with
--     applyDecision and shouldConfirmClosure of pipeline.go, Filter the choice of discussions and
--     the prompts of pipeline.go, Task a part of task.go.
--   Runner: internal/shared/runner. Session is the loop of execute in run_session.go as a step
--     function on the record of its variables, with a rule for what every round establishes; Send the
--     messages of runner.go and sendAndAwaitTool, which make an agent for that loop out of a server
--     and of the stream of Sse; Prompts the prompts of runner.go; Models the model names and lists
--     of message_model.go; Stats session_stats.go and the collection of the statistics;
--     Serve the start of the server process.
--   Sse: internal/shared/sse. CodeErrors is code_error.go with the errors of client.go, Events is
--     event.go with JSON values as data. Stream is client.go: Reads is readSSELine, Events is
--     handleSSEEvent with what it calls, Loop is parseStreamWithLimit and WaitForToolResult; Frames
--     describes the format of server-sent events, with lines that the buffer of the reader cuts in
--     any way, and Lines the events of a stream by its lines.
--   Config: internal/shared/config, configdir, envconfig, providerconfig and subagentconfig, with
--     internal/review/promptref, promptconfig, agentconfig and finalizerconfig. System is the
--     environment and the file system; Env is envconfig.go, Provider providerconfig.go, Dirs
--     configdir.go, Options config.go, its child Discovered pathdefaults.go, ModelChain opencode.go,
--     Toml the lookup of tomlresolver.go, Subagents subagentconfig.go (Restrict: the checks of a
--     prompt and ensureToolRestrictions; Load: where prompts come from), Prompts the loading of
--     messages and prompts.
--   Git: internal/shared/git, as the arguments of its commands in their order. Effect has the
--     record of the calls that code makes, whose answers may depend on all calls before.
--   Review: internal/review. Parse is parse.go and parse_final.go; Stage and Provenance are the
--     choice of results, their collection, the precheck of models and the provenance of findings
--     in internal/review/pipeline; Publishing is publishReview of pipeline.go, which puts the
--     normalizer, the mapper and the publisher together; Run is Run and RunPrepared of pipeline.go,
--     with the calls to git, the loader of the runtime, the stages and the publisher.
-- The parts meet in the findings of Models, in the markers, which the reviewer writes and the
-- comment warrior reads, and in the notes and discussions of Gitlab.
--
-- Go's maps are association lists, and where a loop runs over a map, the order of the visit is an
-- argument that may be any permutation. Errors are values of Result or Option. The server, the
-- agent, GitLab and encoding/json are parameters: records of functions, which may depend on
-- everything that was asked before.
--
-- Fuel: the loop of a run has fuel for 3 * n + 6 messages with a chain of n models, which is
-- enough since a model is left after three code errors and each of the three other counters ends
-- the loop at three. The loops over pages take their fuel as an argument: a page more than the
-- discussions fill is enough. The loop of containsAIMarker has one round for each byte and one
-- more, each of which moves forward. Digits are printed with one round for each unit of the
-- number, and the searches in the diff and in the markers are bounded by the length of the text.
--
-- The stream of events is read by recursion on its lines, and the lines by recursion on the slices
-- of the buffered reader, so neither needs fuel; the limit of 256 MiB is a number of the model.
--
-- Not modelled: processes, HTTP, logging and the heartbeat of the stream, which have no effect on
-- results; encoding/json, the TOML decoder and SHA-256, which are parameters, as is the addition
-- of float64; the arguments of the server process and the polling of child sessions; and the
-- rendering of the diff into a file.
pub mod Prelude
pub mod GoText
pub mod GoInt
pub mod Models
pub mod Diff
pub mod Vcs
pub mod Gitlab
pub mod Warrior
pub mod Runner
pub mod Review
pub mod Sse
pub mod Config
pub mod Effect
pub mod Git
