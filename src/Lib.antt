-- ===== src/Lib.antt =====
-- ToolSmith is a server of tools for language models. It reads requests over HTTP or standard input,
-- checks them, and runs the tool that they name; tools are compiled in, loaded from plugins, or
-- promoted from skill files. This library models the parts that decide: the checks on a request, the
-- registry of tools, the choice of the advertised ones, the calls of native plugins, the transport
-- over standard input, the workspace that the tools are kept in, and the files that they read and
-- write.
--
-- A string is the list of its bytes, numbers are natural numbers with the wrap-around of `size_t`
-- and `uint32_t` written out, and an `int` that may be negative is an integer that does not
-- overflow. An exception is a value (Base/Except), and a mutex makes each method one step of an
-- explicit state.
--
-- Which file models what (paths from the repository's root):
--
--   Security/RateLimiter  src/security/RateLimiter.cpp: AllowRequest is allow_request, made of
--                         fresh_bucket, refill and spend; Reset is reset; time is an argument
--   Security/ApiKey       src/security/ApiKeyValidator.cpp: Validate is validate
--   Json                  the values of nlohmann::json; the library itself is not modelled
--   Validation            src/validation/InputSanitizer.cpp: SanitizeString, ValidateJsonDepth,
--                         ValidatePayloadSize
--   Hashline/Hash         src/core/Hashline.cpp: NormalizeLine, LineHash
--   Hashline/Parse        ParseFile
--   Hashline/Read         FormatRead
--   Hashline/Edit         FindLine, ApplyHunks
--   Registry              src/commands/CommandRegistry.cpp: the tools by name, the advertised set
--   Registry/Chain        ExecuteWithChaining
--   Registry/Listing      ListToolMetadata
--   Protocol              src/core/ProtocolHandler.cpp: Handle is handle, HandleRequest is handle_request;
--                         it puts the checks, the rate limiter and the registry together
--   NativeAdapter         src/plugins/NativePluginAdapter.cpp: ExecuteAsync is execute, made of refused,
--                         enter and finish, which is leave and settle; NativeAdapter/Interleaving
--                         has these as steps of calls that overlap
--   ThreadPool            src/core/ThreadPool.cpp: the workers' loop, the waits and notifications of the
--                         condition variable, Submit and Shutdown as steps
--   Jail                  src/core/WorkspaceJail.cpp: DetectRoot is detect_root, Open is open_jail, Contains
--                         is contains_path, Resolve is resolve; paths are in Base/FilePath
--   CoreTools             src/commands/CoreTools.cpp and include/core/ResultBudget.h: what the tools share
--   CoreTools/Edit        EditCommand: edit; it resolves the path, reads the hunks and calls apply_hunks
--   CoreTools/Read        ReadCommand: read
--   CoreTools/Run         ShellCommand and GitCommand: shell_plan and git_plan give the program that is
--                         started and the time limit that RunProc is given, shell_report and git_report
--                         the answer to its output; RunProc itself is not modelled
--   CoreTools/Packs       CatalogCommand, ActivateCommand, DeactivateCommand, RegisterCoreTools
--   Transport             src/server/StdioTransport.cpp: the state, MakeResponse, MakeError
--   Transport/Calls       HandleToolsList, HandleToolsCall, HandleToolsCallBatch,
--                         HandleCancelNotification
--   Transport/Prompts     HandlePromptsList, HandlePromptsGet
--   Transport/Resources   HandleResourcesList, -Read, -Subscribe, -Unsubscribe
--   Transport/Resources/Watcher
--                         StartResourceWatcher and StopResourceWatcher: the server's thread and the
--                         watcher's as steps, with the mutex that they share
--   Transport/Serve       Run is run_loop, Dispatch is dispatch; it puts the handlers together
--   Skills                src/skills/SkillEngine.cpp: Interpolate is interpolate, SanitizeVariable is
--                         sanitize_variable; the regular expression is match_at
--   Skills/FrontMatter    src/skills/YamlFrontmatter.cpp: ParseYamlFrontmatter is
--                         parse_yaml_frontmatter, and the getters
--   Config                src/core/Config.cpp: LoadFromEnv and the getters
--   Discovery             src/discovery/McpServerRegistry.cpp: the servers to forward to
--   ToolProfile           src/core/ToolProfile.cpp: Detect, Normalize, ToolsForProfile, Resolve
--
-- All loops are structural: they run over a list of bytes, lines, hunks or tools, or over a value of
-- JSON. ExecuteWithChaining recurses on the depth that is left, from kMaxChainDepth = 5 down, which
-- is the source's own bound. std::to_string (Base/Decimal) has fuel, one step for each unit of the
-- number; the digits read back as the number, so it is enough. DetectRoot's loop has fuel too, one
-- step more than the path has elements, after which it has stopped. The loops that erase pairs of
-- braces have the length of the text for fuel, and each step makes the text two bytes shorter.
--
-- The tools themselves are a parameter of the registry (Strategies): what one does when it runs is
-- any function of the request and the state, which it may change. std::sort is a sort that keeps the
-- order of equal elements; the edits refuse hunks with equal start lines. An unordered map lists its
-- entries in the order of insertion; no theorem depends on that order. The parser and the printer of
-- JSON, the schema validators, the file system, the start of a program and what a native plugin does
-- are parameters as well. A path is the sequence of its elements as on POSIX. A call that the stdio
-- transport submits to the thread pool runs where it is submitted, and the calls of a batch run one
-- after the other, in the second phase; calls that overlap are modelled for native plugins only. In
-- run_loop an unsubscription comes back, as it does where its join returns;
-- Transport/Resources/Watcher shows how it can fail to. Where fs::absolute throws in Resolve, which
-- takes a working directory that is gone, resolve goes on with the empty path.
--
-- Not modelled are what the watcher sends while it polls, RunProc, the tools search, project, build,
-- test, diagnose, skills and skill, the HTTP transports, script plugins and other processes, the
-- language-model provider, the loading of skills and plugins from files, and logging: they mostly
-- call the operating system or a library.
mod Base
pub mod Security
pub mod Json
pub mod Validation
pub mod Hashline
pub mod Registry
pub mod Protocol
pub mod NativeAdapter
pub mod ToolProfile
pub mod ThreadPool
pub mod Config
pub mod Discovery
pub mod Jail
pub mod CoreTools
pub mod Transport
pub mod Skills
mod Tests
