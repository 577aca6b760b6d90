-- ===== src/Lib.antt =====
-- pwshpy: a verification library for the program's domain layer and parts of its adapters.
--
-- The program wraps administrative work that PowerShell does in Python functions. Parts of two of
-- its layers are modelled. Of the domain layer, one is the packer's pure core,
-- src/pwshpy/domain/packing.py: it turns a Python script into a runner, one file in PowerShell or
-- POSIX sh that carries the script as a base64 payload. The core finds the script's imports and its
-- PEP 723 block, reads what matters of the block's TOML, and substitutes everything into a template
-- of one of the two shells, quoted such that the shell reads it as data. Another is
-- src/pwshpy/domain/scheduling.py, the inputs of a scheduled task, which are validated before any
-- adapter sees them. A third is src/pwshpy/domain/shortcuts.py, the inputs of a Windows shortcut, a
-- fourth src/pwshpy/domain/surrogates.py, the repair of texts that UTF-8 cannot encode. The last is
-- src/pwshpy/domain/enums.py, the values that adapters translate raw states into. Of the native
-- adapters, src/pwshpy/adapters/native/service_control.py drives a Windows service to a state,
-- src/pwshpy/adapters/native/packer.py collects the files that a script imports from the file
-- system, with the import analysis of the domain layer, and restores those of a runner, and
-- src/pwshpy/adapters/native/marshal.py has the tables by which raw numbers become the domain
-- layer's values; service control uses them. Of the command line's configuration,
-- src/pwshpy/adapters/config/overrides.py parses the values given with `--set` and nests them.
--
-- Files:
--   Base            Booleans, numbers, lists and results that all files share; Base/Int has integers.
--   Text            Python's `str` as the list of its code points, with the methods that the program
--                   calls; Text/Lines is `splitlines`, Text/Span the longest prefix of a class.
--   Packing         src/pwshpy/domain/packing.py, one child module for each of its parts:
--     PowerShell      `_powershell_literal`, `_powershell_string_array`, `unquote_powershell_literal`;
--                     Reader is what PowerShell reads, RoundTrip the proofs.
--     PosixShell      `_posix_shell_word`, `_posix_shell_args`; Reader is what sh reads.
--     Relative        `split_relative_requirement`, `_is_relative_location`, `_anchored_values`,
--                     `_powershell_relative_suffixes`, `_posix_anchored_args`; Split and Dotted have the
--                     proofs on one value, Placed and Anchored those on the arguments.
--     Imports         `iter_import_candidates`, `_node_candidates`, `_resolve_from_base`,
--                     `_with_parents`, `classify_import`, `candidate_relative_paths`.
--     Substitute      `_substitute`, called with one replacement or more: with none the source fails.
--     Runner          `RunnerContent`, `FileDigest`, the placeholders, `render_runner`,
--                     `render_posix_runner`, `_refuse_unrepresentable_names`.
--     Metadata        `extract_script_metadata`.
--     Toml            `_scan_toml_line`, `_scan_toml_characters`, `_string_end`; Tokens is what a line
--                     is composed of, Scan and Open what the scan finds in it.
--     RequiresPython  `extract_requires_python`, `_requires_python_value`.
--     GitSource       `has_git_source`, `_may_name_a_git_source`; Key and Named describe what the
--                     regular expressions look for, Detected the lines of the block.
--     Chunks          `chunk_base64`.
--     Shim            `_argv_from_environment`, `_restore_the_callers_path`, `_entries_uv_added` and
--                     `_restore_the_callers_home` of `SHIM_SOURCE`; Lookup has the laws of the environment.
--     Tests           runs of the models, and the theorems at concrete inputs.
--   Scheduling      src/pwshpy/domain/scheduling.py, with the enumerations of
--                   src/pwshpy/domain/enums.py that it uses:
--     Identity        `_SID`, `_UID`, `_is_uid`, `_identity`, `WellKnownSid`.
--     Principal       `TaskPrincipal` with its properties, `TaskLogonType`, `TaskRunLevel`.
--     Settings        `TaskSettings`, the triggers, `TaskMultipleInstances`.
--     Tests           as above.
--   Enums           src/pwshpy/domain/enums.py, a file for each class that the other parts do not
--                   declare themselves; ByValue is the lookup that a call of the class does.
--   Shortcuts       src/pwshpy/domain/shortcuts.py: Fields has the proofs on the checks that fields
--                   share, Stored those on paths and arguments, Specs those on `ShortcutSpec`.
--   Surrogates      src/pwshpy/domain/surrogates.py: Decimal is `str` of a number, Free has the proofs
--                   on `_free_name`, Names those on the dictionary of names, Repaired those on
--                   `repaired_key_names`.
--   Marshal         the tables of src/pwshpy/adapters/native/marshal.py: Services, Registry, Tasks and
--                   Processes after what they translate; RoundTrip and Numbers have the proofs.
--   Services        src/pwshpy/adapters/native/service_control.py:
--     Monad           calls that change the world, may fail and may run out of fuel, with `finally`.
--     Control         `next_control_step`, `_drive`, its waits, `_query_one`, and the verbs of
--                     `NativeServiceController`; Rounds has the equations of the waits, Ends their end,
--                     Protocol the steps that a service is meant to take, Handles the open handles.
--   Packer          src/pwshpy/adapters/native/packer.py:
--     Disk            what the packer reads of the file system, `_resolve_local`, `_package_parts`,
--                     `_existing_file`, `_read_bytes`, `_require_under_root`.
--     Collect         `_collect_sources`; Rounds has the equations of its loop, Reached and Closed the
--                     files that are reached, Ends the end of the loop, Returned what is returned.
--     Destination     `_resolve_format`, `_guard_destination`, and `pack_script` up to its guard, which
--                     uses Collect; Kept has the proofs.
--     Unpack          `_extract_payload`, `_extract_zip_members`, `_extract_tar_members`,
--                     `_write_member` and `unpack_script` behind the reading; Spared has the proofs.
--   Overrides       src/pwshpy/adapters/config/overrides.py:
--     Tree            the nested dictionaries and `put`, the walk of `_nest_override`; Put its proofs.
--     Parsed          proofs on `parse_override`.
--     Conflicts       proofs on `_refuse_conflicts`.
--     Nested          proofs on `nest_overrides`.
--
-- How the code is modelled:
--   * An exception is a constructor of an error type, with the data that its message shows. A
--     function that raises returns a `Result`.
--   * A regular expression is a matcher by clauses. `is_space` is `\s` of `re`, and `lower` agrees
--     with `str.lower` on every character whose lower case has an ASCII letter, which is all that a
--     comparison with `git+` or with the suffix of a file's name depends on.
--   * `ast.parse` and `ast.walk` are a parameter of `iter_import_candidates`: the import nodes of
--     the source in the order of the walk, or nothing where the source does not parse.
--   * `os.environ` is an association list, `os.pathsep` and the decoding of an argument's base64 are
--     parameters of the shim's functions.
--   * A loop is structural recursion on what is left of its list. Where Python's index goes on by
--     more than one, the number of characters that are still to be passed is an argument.
--     `chunks` runs on fuel, the length of the blob: a round cuts off one character or more, so the
--     fuel is enough.
--   * A `timedelta` is its number of microseconds, and the moment of a trigger is a type that the
--     model takes as it is. A validated object is the result of a function that may refuse.
--   * `win32service` and the clock are a record of operations, `Manager`, over a type of worlds: each
--     takes the world to a result and a world. What the proofs rely on is named: `KeepsTime` says that
--     no call turns the clock back and that a sleep passes its time, `TracksHandles` that opening
--     adds the handle to the open ones, that closing an open one takes that one away, and that no
--     other call opens or closes any; nothing is said of closing a handle that is not open, and
--     `close_handle` does not fail in the model.
--   * The polls of a service run on fuel, one unit for each. Between two polls 250 milliseconds pass,
--     so one unit for each 250 milliseconds of the budget, and one more, are enough.
--   * `pathlib` and the files are a record of operations, `Disk`: its paths are compared, joined,
--     resolved and read, and a path is or is not below another. The walk over the imports runs on
--     fuel, one unit for each path that leaves the stack; enough of it exists where the names that are
--     found lie in a finite list of files.
--   * Unpacking takes the files, `zipfile`, `tarfile` and `base64` as a record of operations, `Files`;
--     `KeepsOthers` names what the proofs rely on: a write changes one file, and removes none.
--   * `orjson.loads` and `Config.with_overrides` are parameters. A dictionary of the overrides is an
--     association list in the order of its insertions, whose values are leaves or dictionaries; where
--     Python would call `setdefault` on a value, `put` has no result.
--   * `PureWindowsPath` and `subprocess.list2cmdline` are parameters of the shortcut's checks; the
--     objects that are passed to its constructor are texts, numbers, Booleans, None, sequences or others.
--   * The search of a free name runs on fuel, one round more than there are taken names; a round ends
--     it or passes one of them, so the fuel is enough. The keys of a mapping are texts or other objects.
--   * The readers of PowerShell and of sh are descriptions of those languages that know nothing of
--     the functions that quote: a single-quoted literal of PowerShell, and words of sh with single
--     quotes, double quotes that hold a variable, backslashes and blanks.
--
-- Not modelled: the rest of the shim, which changes the directory and runs the script; the rest of
-- the packer's adapter, which writes the runner; the rest of the marshalling, which reads times and the
-- attributes of exceptions; the other adapters and the command line, which call the operating system,
-- PowerShell or third-party libraries; the records of the domain layer that only carry data; and the
-- runner templates, which are programs in other languages.
pub mod Base
pub mod Text
pub mod Enums
pub mod Marshal
pub mod Overrides
pub mod Packer
pub mod Packing
pub mod Scheduling
pub mod Services
pub mod Shortcuts
pub mod Surrogates
