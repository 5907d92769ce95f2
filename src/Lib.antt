-- ===== src/Lib.antt =====
-- A model of brenlib, a C++ library of independent components, and the theorems about them.
--
-- The components (a file of this library each, with its proofs and tests in the folder below it):
--   NaiveDate      src/NaiveDate.cpp, hdr/bren/NaiveDate.hpp: a date in three fields, 0 for not set
--   NaiveTime      src/NaiveTime.cpp, hdr/bren/NaiveTime.hpp: a time of day, 255 for not set
--   Timespec       src/timespecops.cpp: the operators on `struct timespec`
--   Roman          src/roman.cpp: `toRoman`
--   StateMachine   hdr/bren/StateMachine.hpp: the registries (StateMachine), `transition_` and `event`
--                  (Running), events from several threads, in turns (Running/Threads)
--   Base64         hdr/bren/Base64.hpp: `base64encode` and `base64decode`
--   Table          hdr/bren/Table.hpp: a table in one vector, row after row
--   CsvWriter      src/CsvWriter.cpp, hdr/bren/CsvWriter.hpp: the writer with its counters
--   CsvReader      src/readCSV.cpp: the reader, which fills a Table
--   Semaphore      src/Semaphore.cpp: a counter of 16 bits
--   Tokenize       src/Tokenize.cpp: `Tokenize`
--   Observable     hdr/bren/Observable.hpp: a value and those who are told of its changes
--   ConnPool       hdr/bren/ConnPool.hpp: database connections for threads
--   Functions      src/functions.cpp, hdr/bren/functions.hpp: HTML references and `join`
--   HeaderedTable  src/HeaderedTable.cpp: a Table whose columns have names
--   Singleton      hdr/bren/Singleton.hpp: one object of a class, made when it is first asked for
--   Logger         src/Logger.cpp, hdr/bren/Logger.hpp: the logger, and its macros (Macros)
--   Child          src/Child.cpp: a command in a child process, its environment and its output
--   IoctxtWrapper  src/IOctxtWrapper.cpp: a Boost I/O context that is run here or in threads
--   CoolEnum       hdr/bren/CoolEnum.cpp.hpp: names for the keys of an enumeration
--   Tracer         src/Tracer.cpp: log entries where a function is entered and left
--   RunChecks      src/runchecks.cpp: which unit tests are run, and their list
--   Run            src/run.cpp: a command that is run and waited for
-- Prelude holds what they share: numbers, lists, texts as lists of bytes, maps as association lists,
-- and the C++ exceptions as values of `Error` in a `Result`.
--
-- How they interact: the CSV reader and HeaderedTable work on Table through `put`, `get` and `locate`,
-- whose laws are in Table/Cells; Table/Rows and Table/Grids say what a row and a list of rows leave.
-- CsvReader/Quoted, Fields, Lines and Files read what the CSV writer writes, CsvReader/Written is a client
-- that writes a table with it, and CsvReader/RoundTrip puts the two together; CsvReader/TooMany and Open
-- are about lines that no writer makes. HeaderedTable/Access goes
-- from the headers that Unique makes different to the cell that `cell` finds; HeaderedTable/FromCsv puts
-- it behind the writer and the reader. The macro FCET stands in
-- Prelude as a test that throws; Logger/Macros has it with the logger, and Logger/Macros/Fcet compares
-- the two. Run and Child share what the operating system answers.
--
-- How the code is written here: a method is a function from the object to the object it leaves and its
-- answer; a method that throws before it changes anything returns a `Result` alone. An overloaded
-- setter is `set_` and the name. Numbers are natural; where the code can wrap, `% 2 ^ w` is written.
-- The mutex of a class makes each method, or each section under it, one step; so are `log` of the logger,
-- and the loop of `set` of an observable, which run without it. Handlers and observers
-- are functions on a world, and do not call the object back.
--
-- Loops are structural recursion. Tokenize, html_to_ascii and the numbers that HeaderedTable appends
-- run on fuel: one round more than the text has bytes, as each round passes a byte; and 65535 rounds,
-- which is the bound of the source's own loop. HeaderedTable/Names says
-- that they find a free name. The child's loop in Run has a number of rounds, which Run/Arguments says
-- are enough. The numerals of Roman are filled in as many rounds as
-- the number, as each takes 1 at least. Decimal digits have fuel for numbers below 10 ^ 20,
-- which is more than any caller passes.
--
-- Parameters, as their code is not in the repository: `utf8::is_valid` of the CSV writer, the
-- constructor of a connection, which connections are held outside the pool, which observers are alive,
-- boost::asio::io_context with the laws of its documentation, what std::filesystem says of a path, what
-- the system calls answer (Child.System), the clock of the C library (NaiveDate/Weekday), the time in a
-- log entry, the runner of CppUnit, and whether an exec call succeeds.
--
-- The unit tests of chk stand beside what they test, in modules called Checks, as programs over the
-- models, which can be evaluated; Prelude/Asserts has the assertions of CppUnit. The test of the
-- weekdays is evaluated on clocks of two zones.
--
-- Not modelled: the parsing of options in runchecks, which Boost does, the macros of commondefs, the
-- sample programs, the log entries of `transition_`, which throw where the logger has no destination, the
-- destructor of a semaphore as two steps, and the unit tests of child processes, which ask what programs of the system exit
-- with and how many file descriptors are open.
pub mod Prelude
pub mod NaiveDate
pub mod NaiveTime
pub mod Timespec
pub mod Roman
pub mod StateMachine
pub mod Base64
pub mod Table
pub mod CsvWriter
pub mod CsvReader
pub mod Semaphore
pub mod Tokenize
pub mod Observable
pub mod ConnPool
pub mod Functions
pub mod HeaderedTable
pub mod Singleton
pub mod Logger
pub mod Child
pub mod IoctxtWrapper
pub mod CoolEnum
pub mod RunChecks
pub mod Run
pub mod Tracer
