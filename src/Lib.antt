-- ===== src/Lib.antt =====
-- The battery monitor of the hospital meter: a model of its C and C++ sources.
--
-- The program shows the state of the battery on a touch screen, lets two buttons change the
-- brightness, and has an audio library that plays short tunes. Its parts, and the files here:
--
--   Audio.antt and Audio/    Source/Libs/Audio/Audio.c, Music.h, Include/AudioTrackID.h
--     Queue      MsgQ with InitMessaging, GetMessage, SendMessage; Queue/Fifo is its abstract view,
--                Queue/Refine the refinement, Queue/Runs rows of calls, Queue/Quotient the states up
--                to their slots
--     Music      GetTrack and the tables of Music.h (Music/Notes, Music/Tables, Music/Shape),
--                and its scale (Music/Scale)
--     Player     PlayerTaskLoop: `tick` is one round of a millisecond, `ticks` a row of rounds
--     Control    Audio_init, Audio_start, Audio_end, Audio_PlayTrack, Audio_SetVolume and
--                ProcessMessage over the record of the static variables
--                (Control/Ready: RunAudioPlayer)
--     Heard      the player over the speaker
--     System     the threads: `Step` is an indexed relation, one constructor for each stretch of
--                code that no other thread can disturb; System/Ending is about Audio_end,
--                System/Race about Audio_start, System/Order about the messages, System/Sound and
--                System/Silence about the speaker
--   Speaker.antt and Speaker/    Source/Libs/Audio/Speaker.c, Speaker.h
--     Env        the static variables, and the answers of pthread, the file system and libgpiod
--     Pwm, Volume, Device    the PWM files, the volume pins, the interface
--     Pitch, Off, Pins, Failure    what the channel gives, when it is off, the pins, failed calls
--     Tone, Refine    the abstract view of the interface, and the refinement
--   Battery.antt and Battery/    Source/Libs/Battery/Battery.cpp, Include/Battery.hpp
--     State, Gpio, Events, Gauge    the lines, the events, the files of the battery's driver
--   Gui.antt and Gui/    Source/Libs/Gui/gui.cpp, Include/Gui.hpp
--     Calls, Widgets, Table, Grid    each function is the list of the calls of LVGL and of its lock
--                (a text that LVGL does not copy is passed with the place where it stands)
--     Styles     DeclareStyles, CreateScreen, ClearScreen
--     Start      GuiInit, GuiCleanUp, a round of RunTaskThread and of RunTickThread
--     Look, Canvas    what the calls mean for a style (the setting that it has for a property in
--                a state) and for a canvas (the colour of a point)
--     Locking, Use    lvgl_lock behind a row of calls, and behind a use of the functions
--     Threads    the threads that call LVGL; `Step` is one call of one of them, or the end of a
--                cancelled thread (Threads/Cancel: GuiCleanUp)
--   Core.antt and Core/    Source/Core/core.cpp
--     Monitors    one round of each thread that keeps the screen up to date
--     App, Menu   the global variables, the buttons, AddAdjustBrightness and main_menu
--     Program     rounds of the threads and events on the buttons, in any order;
--                 Program/Strings and Program/Stale are about the strings that the labels point to
--     Shown       the texts and the colours of the labels
--     Main        main, main_menu in parts, and those rounds and events beside them: `Turn`
--                 (Main/Whole: the parts in a row are main_menu)
--   Debug.antt and Debug/    Include/debug.hpp
--     the levels, DBGPRT, DBGPRT_ARR (Debug/Dump reads its lines back)
--   Prelude.antt and Prelude/    shared names, lists, integers, texts, decimal numerals
--
-- How the parts meet. The callbacks of Core call `Audio_PlayTrack`, which sends to Audio's queue; the
-- task takes from it and hands the track to the player, which hands pitches to the Speaker; the
-- threads of Core read Battery and change labels by Gui. State is passed explicitly: a function
-- returns its result and the new record. An error is the value of the source's enumeration.
--
-- Numbers. Frequencies and times are natural numbers, of which the source has an uint16_t. An `int` is
-- an integer; where a value is narrowed (`unsigned long long` to `int` in Speaker_PlayPitch, the
-- length of a string) the wrap-around is written out. Where a property reads an `int` from a file
-- its bounds are hypotheses. The coordinates of widgets, none of which the code sets below zero, are
-- natural numbers.
--
-- Loops. Endless loops are one round each. `perform` takes as many rounds as the rhythm adds up to,
-- and one more for each note, and `settle` fourteen steps, the greatest `rank` of a task that Audio_end
-- waits for. The threads of Gui/Threads make any number of rounds.
--
-- Parameters. libgpiod, pthread, the file system, LVGL's pointers and the quotient of floating-point
-- numbers are fields of the records Speaker.Env.Env, Audio.Control.Answers, Battery.State.Gpiod and
-- Gui.Calls.Lvgl; each has a concrete value in a module Tests.
--
-- Not modelled: the calls of DBGPRT, which print; CloseAudioPlayer, which calls Audio_end and logs;
-- the version text of main, which is only logged; the durations of Music.h that no table names, and
-- its tables under #if 0; what LVGL draws, beyond the settings of the styles and the rectangles of a
-- canvas. In Gui/Threads a cancelled thread may end in usleep or in lv_task_handler, of which
-- the driver of the touch screen makes a system call. In Core/Program a round of a thread, and in
-- Core/Main a row of the menu, is one step: the threads share the lock of LVGL and change different
-- labels. A brightness beyond the range of an `int`, some two thousand million clicks away, and an
-- `Audio_start` while an earlier task has not returned are left out.
pub mod Prelude
pub mod Audio
pub mod Speaker
pub mod Battery
pub mod Gui
pub mod Core
pub mod Debug
