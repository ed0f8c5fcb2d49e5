-- ===== src/Lib.antt =====
-- The policy scripts of the repository.
--
-- Guard models the hook that sees each shell command of an agent before it runs,
-- scripts/agent/pre_tool_policy.py, and may deny it. The hook runs in these parts:
--
-- - Guard/Hook: `read_command` takes the command and the directory from the environment or from
--   the payload on standard input, `main` asks for a reason, and `emit_denial` gives the exit.
-- - Guard/Denial: `denial_reason` goes over pipelines and segments, follows `cd`, and runs itself
--   on the command of a nested shell.
-- - Guard/Lexer and Guard/Pipelines: `shell_pipelines`, with the lexer of Python's `shlex` in the
--   mode that the script sets (`posix`, `punctuation_chars`, `whitespace_split`).
-- - Guard/Words: assignments, and the wrappers `command` and `env` before an executable.
-- - Guard/Git and Guard/Push: `git_operation`, `git_command_cwd`, `git_denial`, refspecs, leases.
-- - Guard/Rm: `rm_denial`. Guard/Operands: the files that `cut`, `grep` and `awk` read.
-- - Guard/Secret, Guard/Brace, Guard/Glob: `is_secret_path`, brace expansion, Python's `fnmatch`.
-- - Guard/Shell: nested shells, `DROP` statements for database clients, `cd`.
-- - Guard/Host: what the script asks of the machine, a record of functions that all of the above
--   take as a parameter, and Python's path functions on texts.
-- - Guard/Reason: the reasons of a denial, as the messages that are printed.
--
-- Coverage models parts of the coverage gate, scripts/quality/verify_coverage.py:
--
-- - Coverage/Outcome and Coverage/Bytes: what a step raises or gives, and Python's `bytes`.
-- - Coverage/Paths, Coverage/Statuses, Coverage/Sections, Coverage/Lines, Coverage/Replay and
--   Coverage/Diff: `parse_zero_context_diff`. The loop's variables are the fields of `Loop`; the
--   file that is current is held by its key, since the source changes it in place.
-- - Coverage/Blanks: `_strip_comments_and_strings`. Coverage/Floors: floors and ratios.
--   Coverage/Predecessor: the floors of two baselines. Coverage/Counters: `changed_counters`.
--   Coverage/Sources: `classify_exact_sources`.
--
-- Mutation models primitives of the mutation gate, scripts/quality/pitest_policy/__init__.py:
--
-- - Mutation/Text: `_decode_modified_utf8`. Mutation/Pool: the constant pool of a class file.
-- - Mutation/ClassFile: `_parse_class_source_file`. Mutation/Floor: `compare_floor`.
-- - Mutation/NoCoverage: `compare_no_coverage`, whose messages are a package and two counters.
-- - Mutation/Descriptor: `_validate_descriptor`, with as many rounds of its loop as code points.
-- - Mutation/Routing: `route_changed_paths`. The set of the modules is a list in order.
--
-- Pitest models a part of the gate itself, scripts/quality/verify_pitest.py:
--
-- - Pitest/Disk and Pitest/Steps: files and directories, and what the script asks of the system.
--   Each operation up to the end of the `try` block that makes a directory, writes or moves a file
--   takes the next of a list of events, which says whether it is done, fails before or after it has
--   done something, writes other bytes than it is given, or is done and followed by an interrupt.
--   Where the list is at its end, operations are done. Reading a file back takes no event: it gives
--   what is there, and a failure of it is one of the write before that writes and then fails.
-- - Pitest/Install: `install_successor_atomically`, with its `try`, `except` and `finally` blocks.
-- - Pitest/NameStatus: `parse_name_status`. Pitest/Route: the first part of `route`, which takes the
--   changes of a pull request from git and passes them to Mutation/Routing.
--
-- Base holds the shared names, the Boolean tests, and the methods of Python's `str`.
--
-- Bounds. A nested shell is checked to depth 3, as in the script: `denial_within` counts the levels
-- that are left. The loop of `brace_alternatives` has no bound in the script; here it runs on
-- 64 * (n + 1) + 1 rounds for a pattern with n opening braces. Each round of the loop either adds
-- an alternative, and 65 of these end it, or puts one group's alternatives, of which there are at
-- most 64 pending, in place of a text with more opening braces. A run that meets the bound has
-- a result of its own, `unfinished`, so that no other result comes from the bound
-- (Guard/Brace/Termination).
--
-- Parameters. The file system, the environment, the user's home, the git commands the scripts run,
-- `json.loads` and the decoding of UTF-8 are parameters of the model. One run of the hook sees the
-- same machine throughout. What the mutation gate uses of `pathlib`, and the test that a path lies
-- in the archive, are parameters too. The counters of the coverage reports are numbers from 0 up.
--
-- Not modelled. In the `except` and `finally` blocks of an installation the system does what it is
-- asked to. Of the errors in the gates only the kind is kept. Texts that are no valid Unicode,
-- and the errors that `os.path.realpath` raises for texts with a null character, are left out. The
-- rest of the gates, the other scripts of the repository and its Android application are not
-- modelled.
pub mod Base
pub mod Guard
pub mod Coverage
pub mod Mutation
pub mod Pitest
