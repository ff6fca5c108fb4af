-- ===== src/Lib.antt =====
-- The virtual machine of lms2012-compat, the byte code interpreter of the EV3 brick, in lms2012/, and
-- parts of the device modules that its byte codes call.
--
-- The machine (`VMInstance`) runs the programs of a few slots. A program is an image of byte codes
-- with a table of objects: threads, blocks that start when they are triggered often enough, and sub
-- calls. The main loop picks a program, then one of its running objects, switches both in, executes
-- byte codes until the dispatch status or the length of the time slice ends the turn, and switches
-- them out. Each byte code reads its operands from the stream behind it by `PrimParPointer`.
--
-- Which file models what:
--   Prelude.antt, Prelude/    library names, Boolean tests, lists, integers over the native numbers
--   Words.antt                DATA8, DATA16, DATA32 as bit patterns (lms2012/lmstypes.h)
--   Vm.antt                   `VMInstance`, PRG, OBJ, OBJHEAD (lms2012/lms2012.h), memory, pointers,
--                             and the monad `M` of state and undefined behaviour
--   Floats.antt               DATAF and its operations, a parameter
--   Param.antt                PrimParPointer, PrimParAdvance, AdjustObjectIp (lms2012/lms2012.c), and
--                             the handle lookup of c_memory/c_memory.c
--   Param/Encode.antt         the operand macros of lms2012/bytecodes.h.in
--   Dispatch.antt             SetDispatchStatus, SetInstructions, GetObjectIp, SetObjectIp
--   Branch.antt               lms2012/c_branch.c: cBranchJrLt8 is `c_branch_jr_lt8`, and so on
--   Compare.antt              lms2012/c_compare.c
--   Arith.antt                lms2012/c_math.c
--   Move.antt                 lms2012/c_move.c
--   Timer.antt                lms2012/c_timer.c
--   ErrorLog.antt             LogErrorNumber to CleanLogErrors of lms2012/lms2012.c;
--                             ErrorLog/Queue.antt is the queue that they promise
--   Objects.antt              the objects of a program: ObjectReset to ObjectExec, opOBJECT_START and
--                             the other object byte codes, opSLEEP
--   Programs.antt             ProgramEnd, ProgramInit, ProgramExit, ProgramExec, opERROR,
--                             opPROGRAM_STOP
--   Copy.antt                 the loops of CopyParsToLocals and CopyLocalsToPars
--   Call.antt                 opCALL, opRETURN, and the frames of those two
--   Lcd.antt                  the image of the display: pixels, rectangles, scrolling (c_ui/d_lcd.c)
--   Lcd/Line.antt             dLcdDrawLine as the path of its points, dLcdRect
--   Lcd/Circle.antt           dLcdDrawCircle, dLcdDrawFilledCircle
--   Lcd/Flood.antt            dLcdFlodfill
--   Buttons.antt              cUiUpdateButtons, cUiButtonClearAll (c_ui/button.c): debouncing,
--                             repetition and long presses
--   Buttons/Flags.antt        the tests and reads of the buttons' flags (c_ui/button.c)
--   Pool.antt                 the memory pools of a program (c_memory/c_memory.c: cMemoryAlloc to
--                             cMemoryFreeProgram, cMemoryOpen)
--   Load.antt                 GetAmountOfRamForImage, ProgramReset, opPROGRAM_START
--   Validate.antt             cValidateCheckAlignment, cValidateBytecode (lms2012/validate.c.in)
--   Validate/Program.antt     cValidateProgram
--   Sched.antt                mSchedCtrl, Monitor, ExecuteByteCode (lms2012/lms2012.c)
--   Ram.antt                  opMEMORY_WRITE, opMEMORY_READ (lms2012/lms2012.c)
--   Names.antt                ValidateChar, ValidateString (lms2012/lms2012.c)
--   Info.antt                 opPROGRAM_INFO, opPORT_CNV_OUTPUT, opPORT_CNV_INPUT, opNOTE_TO_FREQ
--   FileName.antt             FindName, cMemoryCheckFilename (c_memory/c_memory.c)
--   Mail.antt                 the mailboxes (c_com/c_com.c: WRITEMAILBOX, cComFindMailbox,
--                             cComOpenMailBox to cComCloseMailBox); Mail/Reading.antt is
--                             cComReadMailBox
--   Tests.antt, Tests/        concrete machines on which the theorems are applied
-- The children of a module hold the theorems about it.
--
-- How the model reads the code. A function of the machine is a function from a `Vm` to an optional
-- result and new `Vm`; `none` stands for undefined behaviour of C, and for a loop without end. A
-- pointer is an address of 32 bits or a byte of `VMInstance.Value`; memory is a function from
-- addresses to bytes, and the tables of objects lie beside it, so that a store through a pointer
-- changes no object. The build's default options hold: NEW_CALL_MUTEX and PAR_ALIGNMENT are on,
-- BLOCK_ALIAS_LOCALS and OLDCALL are off.
--
-- Fuel. The loops of ProgramExec and ObjectExec run on as much fuel as there are slots and objects, and
-- one more for ObjectExec, which counts its rounds; LogErrorNumberExists on the size of the ring. The
-- loop over a zero-terminated string has one unit for each of the 2 ^ 32 addresses: after a round
-- through all of them it would go on without end.
--
-- The loop over the parameters of a byte code that is validated runs on 4000 rounds, since a word of
-- parameters has 8 nibbles, a sub command brings one more word, and a number of parameters at most
-- 255; the loop over the byte codes of an object on the bytes that are left. A time slice runs on
-- fuel that its caller gives: as many byte codes as its priority.
--
-- The loops over the objects of an image, in GetAmountOfRamForImage, ProgramReset and cValidateProgram, count
-- with an index of 16 bits, and run on one round for each object and one for the last test. For 65535
-- objects, which the index never passes, that is not enough, as no fuel is: the loops of the code do
-- not end.
--
-- A line's loop runs on the sum of its two lengths, a circle's on its radius, and the loops of an area
-- on the columns and rows of the screen.
--
-- Not part of the repository, and so parameters: the numbers of slots and the limits of the types,
-- which a generator writes to bytecodes.h (`Codes`); float arithmetic (`Floats`); the time of day
-- (`Timeval` arguments); the size of the display (`Screen`) and the keys' states; the answers of
-- `realloc`; the tables of op-codes in the validator (`Tables`). The dispatch loop takes the table of
-- the byte codes and the updates of the device modules as a record of functions (`Devices`), and
-- each theorem on it holds for all of them. Calls into the device modules are recorded in `Vm.events`.
--
-- Not modelled: byte codes on strings, files and debugging, opINFO, the disassembler of the validator, which
-- only prints, and the float functions of opMATH; the opening and closing of the machine; text, icons and
-- bitmaps on the display, whose fonts are generated bitmaps, and the other byte codes of the user
-- interface; sending messages, the links between bricks, and the modules for input, output and sound,
-- which mostly talk to drivers.
pub mod Prelude
pub mod Words
pub mod Vm
pub mod Floats
pub mod Param
pub mod Branch
pub mod Compare
pub mod Arith
pub mod Move
pub mod Dispatch
pub mod Timer
pub mod ErrorLog
pub mod Objects
pub mod Programs
pub mod Copy
pub mod Call
pub mod Lcd
pub mod Buttons
pub mod Pool
pub mod Load
pub mod Mail
pub mod Sched
pub mod Ram
pub mod Names
pub mod Info
pub mod FileName
pub mod Validate
pub mod Tests
