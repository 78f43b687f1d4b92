-- ===== src/Lib.antt =====
-- A verification library for the debugger spray (src/, the C program).
--
-- spray runs a program as a traced child, patches breakpoints into its code, resumes and steps it
-- by ptrace(2), and reads its ELF file and its DWARF data to speak of it in terms of its source.
--
-- The files, each with the code that it models:
--   Base         Names shared by all modules: Boolean tests, C strings as lists of bytes, signed
--                numbers, and the bit operations at variables (Base/Bits).
--   Magic        src/magic.h, src/magic.c: results, constants, the two kinds of addresses;
--                Magic/Format has the printing of values by a filter, Magic/FilePath the path
--                relative to the working directory.
--   Ptrace       src/ptrace.c. ptrace(2) is the interface `Ptrace` of the state of the system
--                and its requests. Ptrace/Memory says what is relied on: words are eight
--                bytes, a poke that succeeds changes these bytes and no others.
--   Registers    src/registers.h, src/registers.c: the table of registers with its three
--                numberings; Registers/Descriptors is about its names and numbers,
--                Registers/Values about reading and writing.
--   Breakpoints  src/breakpoints.c: the table of breakpoints and the patching of the process.
--                hashmap.c is a submodule and stands as the interface `HashMap`, whose laws
--                hold for a key that is fit for it. Breakpoints/Outcome has every way an
--                operation can end, Breakpoints/Effects what it changes, Breakpoints/Restore
--                what holds over any sequence of operations.
--   Number       src/debugger.c, parse_num and its callers; strtol(3) is written out. Number/Digits
--                and Number/Printed read back what Magic/Format prints.
--   Elf          src/spray_elf.h, src/spray_elf.c: the mapped file as bytes and its structures;
--                Elf/Header and Elf/Supported the ELF header, Elf/Sections and Elf/FirstIndex the
--                search for the two tables, Elf/Symbols and Elf/Found the searches for a symbol,
--                Elf/Parse and Elf/Outcome the whole of it over open, lseek, mmap and munmap.
--   LineTable    src/spray_dwarf.h, src/spray_dwarf.c: the searches in a line table. What they
--                need of the debug information is the interface `Dwarf`; Die/Lookup and Die/Lines
--                have the code behind it. LineTable/Search and LineTable/Entry say what is found,
--                LineTable/Visit what a loop keeps.
--   Info         src/info.c: symbols and positions, from the ELF file and the line tables.
--   Stepping     src/debugger.c: running the tracee, waiting for it and stepping it;
--                Stepping/Lines (with src/info.c) steps by lines. Stepping/Stable has what a
--                relation must respect to hold across every run, for Stepping/Safety and
--                Stepping/Text (the program's text) and for Stepping/Access, Stepping/Restored
--                and Stepping/Users (the user's breakpoints). Stepping/Termination and
--                Stepping/Loops are about the ends of runs, Stepping/Trap about a stop.
--   Location     src/spray_dwarf.c: location lists and the stack that evaluates their operations;
--                Location/Chosen, Location/Stack and Location/Frame say which expression is
--                taken, that the stack stays in its buffer, and where a local variable is.
--   Backtrace    src/backtrace.c: the chain of frames; Backtrace/Chain is about its end.
--   Args         src/args.h, src/args.c: the command line; Args/Parsed what is accepted.
--   History      src/history.h, src/history.c: the last command.
--   Die          src/spray_dwarf.c: the questions about a debugging information entry, with
--                libdwarf as the interface `Libdwarf`. Die/Search walks over all entries with a
--                callback, as the code does; Die/Lookup has the searches for a path, for a range,
--                for the paths of all units and for a location attribute. Die/Paths compares the
--                source file of a unit (basename(3) and dirname(3) are written out as in the GNU
--                C library, realpath(3) is a parameter), Die/Lines builds a line table, and
--                Die/FirstTable says which. Die/Compiler is the check of the compilers.
--                Die/Preorder describes the entries as a tree, and Die/Units the walk by it.
--   VarType      src/spray_dwarf.c: the type of a variable as a list of nodes; VarType/Shape says
--                which lists are built.
--   Variable     src/spray_dwarf.c, src/info.c: the search for a variable in the scope of a PC, and
--                its location list (Variable/Loclist); Variable/Scope says what the search finds.
--   Value        src/info.c: the printing of a variable's value; Value/Masked and Value/Printable
--                say what the text depends on and that there is one.
--   Commands     src/debugger.c: the tokens of a command line, the filters, and which command is
--                executed; Commands/Tokens says what the tokens are, and Commands/Repeat what a
--                line without any repeats. Commands/Place and Commands/Arguments read the
--                arguments, Commands/Handlers and Commands/Resume have the commands, and
--                Commands/Dispatch and Commands/Session join them, up to run_debugger;
--                Commands/LoadAddress has the address that an executable is loaded at.
--                Commands/Read and Commands/Rejected tell the lines that are executed from the
--                others; Commands/SetMemory and Commands/SetRegister say what a value that is set
--                leaves; Commands/Leaves and Commands/Unharmed follow the process through a session.
--                What a command finds of a variable comes from the interface `VariableSource`, and
--                Commands/DispatchTests fills it with init_var.
--   Sample       A process and a table made of functions, on which the examples run; DieSample is
--                a unit of debug information, Stepping/SampleText the text of the process, and
--                Stepping/Resized the process in a terminal that is resized.
--
-- State is passed explicitly: an operation that fails returns `sp_err` or `none` beside the state
-- that it leaves. A machine word is a natural number below 2 ^ 64, with the mask or the wrap-around
-- of the code written out. A mutable pointer to a result is one more result. Waiting for the
-- tracee takes fuel, one unit for each stop by SIGWINCH that is passed over in a row, a backtrace
-- one for each frame, and a location list one for each frame base. A search of the debug
-- information takes two numbers, one for the headers of units and one for the entries below a unit,
-- and a type one for each node; the theorems say how much is enough.
--
-- Not modelled: the layout of messages and other output (what is said is a list of replies), the
-- release of memory, the start of the child (setup_debugger), libdwarf itself,
-- the names of DWARF's operators for print_loclist, the editing of the command line, and the
-- highlighting of source code.
pub mod Base
pub mod Magic
pub mod Ptrace
pub mod Registers
pub mod Breakpoints
pub mod Sample
pub mod Number
pub mod Elf
pub mod LineTable
pub mod Info
pub mod Stepping
pub mod Die
pub mod VarType
pub mod Value
pub mod Variable
pub mod DieSample
pub mod Args
pub mod History
pub mod Commands
pub mod Location
pub mod Backtrace
