-- ===== src/Lib.antt =====
-- Tpool: the C++ thread library of include/ and src/ with its example programs in examples/, and
-- cpplint.py, the style checker that `make lint` runs over the C++ code.
--
-- The thread library. A component that threads share is a state with one place for each thread,
-- and a step relation: a step is what one thread does from one access of the shared members to
-- the next, so a stretch under a mutex is one step. The functions of a step are the member
-- functions. Mutexes, condition variables and atomics are those of pthread, with their documented
-- behaviour: a wait releases the mutex, a notification wakes all that wait, and a wait may also
-- return unasked. What holds of every reachable state holds for every interleaving. A pool (Pool)
-- keeps its tasks in a queue, its workers take them, and Stop pushes an EndTask for each worker
-- and waits.
--   Threads            families indexed by thread, and sums over the threads
--   BoundedQueue       class BoundedBlockingQueue (include/BoundedBlockingQueue.h), with the loop
--                      of ConditionWaitLocker (include/ConditionVariable.h)
--   BlockingQueue      class BlockingQueue (include/BlockingQueue.h)
--   Deadline           ConditionVariable::TimedWait (src/ConditionVariable.cpp)
--   Latch, Barrier     CountDownLatch and CyclicBarrier (include/)
--   Task               TaskBase (src/TaskBase.cpp): Run, Cancel, CancelAsync
--   Future             FutureTask (include/FutureTask.h)
--   Pool               FixedThreadPool (include/FixedThreadPool.h) with WorkerThread
--                      (src/WorkerThread.cpp): Counts, the moves of Callers and
--                      Workers, those that are Leaving early, Stopped
--
-- The examples. A socket is what its calls give; protobuf and boost are parameters.
--   Packing            the format '!I' of struct, which client and server share
--   TcpClient          examples/GetDataChunkServer/TcpClient.py: the package, what is received
--   MessageReader      examples/GetDataChunkServer/MessageReader.cpp: how a package is read
--   StreamClients      examples/download_client.py, examples/daytime_client.py: Addresses, Ends
--   ForwardServer      examples/ssh_forward_server.py
--
-- The style checker: its state, the handling of reports, the checks, and their composition up to
-- main. A run parses the command line into the lint state, reads each file into lines with a
-- marker line at either end, blanks the comments that span lines, makes cleansed copies of the
-- lines, and calls the checks on them. A check calls `error`, which asks the NOLINT comments, the
-- verbosity level and the filters whether to print, and counts what it prints. Here a check
-- returns the list of what it does in the order of its calls (Report.Effect), and Session applies
-- such a list to the global state and the output. A check that can raise an exception or loop for
-- ever also says how it ends (Run).
--
-- Texts are lists of code points. The parts of cpplint.py and the files that model them:
--   Base               shared names, tests on native numbers, lists measured by them, integers
--   Text, Pattern      Python's str methods and the part of `re` that the program uses, with the
--                      notation of patterns in Pattern.Parse
--   Dict, Paths        Python's dict with text keys, and posixpath; the file system is a parameter
--   Report             error(...) and _error_suppressions as effects
--   LintState          class _CppLintState: filters, verbosity, counting of errors
--   Nolint             ParseNolintSuppressions, IsErrorSuppressedByNolint
--   Session            _ShouldPrintError and Error on the process-wide state
--   Arguments          ParseArguments from the outcome of getopt on, the exit status; Usage:
--                      PrintUsage and PrintCategories
--   IncludeOrder       class _IncludeState: sections of the include list, alphabetical order
--   Includes           _ClassifyInclude, CheckIncludeLine, UpdateIncludeState
--   FunctionState      class _FunctionState; FunctionLengths: CheckForFunctionLengths
--   Files              class FileInfo, _DropCommonSuffixes, FilesBelongToSameModule
--   Comments           IsCppString, RemoveMultiLineComments and its helpers
--   Cleanse            CleanseComments, class CleansedLines
--   Brackets           CloseExpression, _GetTextInside
--   HeaderGuard        GetHeaderGuardCPPVariable, CheckForHeaderGuard
--   FileChecks         copyright, invalid UTF-8, newline at the end of the file
--   LineChecks         multi-line strings, POSIX threading, *count++, TODO, make_pair, blank lines
--   Classes            _ClassInfo, _ClassState, CheckSectionSpacing
--   Constructs         CheckForNonStandardConstructs and the stack of the classes
--   Spacing            CheckSpacing: Blank, Beside (comments), Calls (CheckSpacingForFunctionCall)
--   Braces             CheckBraces
--   Checks             _CHECK_MACROS, ReplaceableCheck, CheckCheck
--   Style              GetLineWidth, CheckStyle
--   Language           CheckLanguage: Casts (CheckCStyleCast), Calls of C functions, Arrays
--   IncludeUse         CheckForIncludeWhatYouUse and its tables
--   Run, Environment   the ways a check ends; what is asked of the system and of unicodedata
--   Processing         ProcessLine, ProcessFileData, and what ProcessFile does with a content
--   Program            ProcessFile and main on the process-wide state
--   Tests              runs on small inputs, and each theorem applied to one
--
-- Bounds and fuel. RemoveMultiLineComments runs on one round more than there are lines, for each
-- round passes a line. The loops of RepositoryName take the fuel as an argument: each round of
-- the search for a checkout shortens the path, and the climb up a Subversion checkout has no
-- bound; a run of the whole program takes that fuel from the environment. The loop of CheckBraces
-- takes two rounds more than the number of its line, since each round goes up by a line at least.
-- The logarithm of a quotient takes the quotient as fuel, and a number is printed with itself.
-- The matcher of Pattern repeats a part at most once for each character left. Line numbers are
-- natural numbers, the number -1 of GetPreviousNonBlankLine is `none`, and levels of verbosity
-- are integers. An exception or a failed assertion is a value: `none`, or a constructor of the
-- result.
--
-- Limits. Upper and lower case and isalnum treat ASCII letters only. A dict is read in the order
-- of insertion. Lines that the source indexes within bounds are read with a default. abspath and
-- exists, the reading of a file and unicodedata are functions of a parameter (Environment). A
-- header that is read for CheckForIncludeWhatYouUse is split at newlines. The line separator of
-- the system is not '\r\n'. CheckLanguage computes an absolute path and an extended line that it
-- does not use; they are left out. The repository name is asked for only where the source asks
-- for it, since the search may not end. Not modelled: the cache of compiled patterns, and extra
-- check functions (main gives none).
--
-- Of the thread library the counters are natural numbers or integers without bound; the element
-- type of a queue, the tasks and what DoRun does are left open. Of StopNow the cancellation of
-- the workers is modelled, but not that of the running tasks nor its waits. Not modelled: the
-- timer, PriorityTaskQueue, and CancelableThread beyond what Pool has of it. Pool keeps its queue
-- as a list that is first in, first out and whose Pop waits while it is empty, as BlockingQueue
-- does. Of the examples the servers in C++ other than MessageReader, the SSH client, and the
-- opening of sockets. The unit tests are not modelled.
pub mod Base
pub mod Text
pub mod Threads
pub mod BoundedQueue
pub mod Latch
pub mod Task
pub mod Future
pub mod BlockingQueue
pub mod Deadline
pub mod Packing
pub mod TcpClient
pub mod MessageReader
pub mod StreamClients
pub mod ForwardServer
pub mod Pool
pub mod Barrier
pub mod Pattern
pub mod Dict
pub mod IncludeOrder
pub mod Report
pub mod LintState
pub mod Nolint
pub mod Session
pub mod FunctionState
pub mod Paths
pub mod Files
pub mod Comments
pub mod Cleanse
pub mod Brackets
pub mod HeaderGuard
pub mod FileChecks
pub mod LineChecks
pub mod Classes
pub mod FunctionLengths
pub mod Constructs
pub mod Run
pub mod Braces
pub mod Environment
pub mod Checks
pub mod Style
pub mod Language
pub mod IncludeUse
pub mod Processing
pub mod Program
pub mod Spacing
pub mod Includes
pub mod Arguments
pub mod Tests
