-- ===== src/Lib.antt =====
-- The PS/2 drivers of this repository: a controller driver, which owns the two ports of the
-- keyboard controller, and drivers for keyboards, mice and trackpads, which it calls with each byte
-- that their device sends. A driver's interrupt routine packs bytes into a RingBuffer; its work loop
-- takes packets out and dispatches them to the HID system. Commands to a device are requests, which
-- the controller executes one at a time between the bytes that arrive.
--
-- Files, and the code they model:
--   Base            numbers, lists, integers, bytes and bits
--   Ring            RingBuffer of VoodooPS2Controller/ApplePS2Device.h; Ring/History runs a
--                   driver's interrupt routine and its work loop on one ring in any interleaving,
--                   Ring/Drain is the loop of every driver's packetReady
--   Device          the constants and result codes of ApplePS2Device.h, and the pointer events
--   MiddleButton    middleButton of VoodooPS2Mouse/VoodooPS2Mouse.cpp (MiddleButton/Mouse) and of
--                   VoodooPS2Trackpad/VoodooPS2SynapticsTouchPad.cpp (MiddleButton/Trackpad)
--   Mouse           interruptOccurred, packetReady, onButtonTimer and
--                   dispatchRelativePointerEventWithPacket of VoodooPS2Mouse.cpp
--   Controller      VoodooPS2Controller/VoodooPS2Controller.cpp: Reading is readDataPort for one
--                   argument, Expecting for two; Requests is writeDataPort, writeCommandPort,
--                   processRequest, processRequestQueue, submitRequest, submitRequestAndBlockGated
--                   and setCommandByteGated; Interrupt is handleInterrupt, its callers and
--                   installInterruptAction; Power is setPowerStateGated and resetController
--   Keyboard        VoodooPS2Keyboard/VoodooPS2Keyboard.cpp: interruptOccurred and packetReady, with
--                   the packets that pass between them in Keyboard/Announce;
--                   Keyboard/Macros is macro inversion, Keyboard/Parse the parsers of the
--                   configuration and the loading of its maps; Keyboard/Tables has the tables of
--                   ApplePS2ToADBMap.h, Keyboard/Events the members and calls that the dispatch of a
--                   key uses, Keyboard/Levels modifyScreenBrightness and modifyKeyboardBacklight,
--                   Keyboard/Dispatch dispatchKeyboardEventWithPacket, and Keyboard/Messages message,
--                   sendKeySequence, initKeyboard and the functions for the lights
--   Trackpad        interruptOccurred and packetReady of the drivers of VoodooPS2Trackpad, and
--                   the events of the ALPS and Sentelic drivers; Trackpad/Averages is SimpleAverage of
--                   VoodooPS2SynapticsTouchPad.h
--   Trackpad/Gestures  dispatchEventsWithPacket of VoodooPS2Trackpad/VoodooPS2SynapticsTouchPad.cpp,
--                   in its stages: Parse reads the packet and passes on those of the track point,
--                   Clickpad turns the clicks of a pad into buttons, Zones is the filter after typing
--                   and the disable zone, Release the end of a touch with its taps, Motion the
--                   movement, the scrolls and the swipes, Switch the choice of a mode; Dispatch
--                   composes them, with onDragTimer and onScrollTimer; Second is
--                   dispatchEventsWithPacketEW, Delivery joins packetReady to the dispatch, and
--                   Messages is message, which hears the calls of Keyboard/Events
--
-- How the code is written down: a class is a record of the members that the modelled functions use,
-- and a method a function from the record to the record. A byte is a natural number, 32-bit and
-- 64-bit arithmetic has its wrap-around written out. What the code cannot be followed into is a
-- parameter: the processor's port instructions and the drivers' interrupt actions (Machine), the
-- kernel's clock (Kernel), what ACPI, the HID system and the other drivers answer to the keyboard
-- (World), the dispatch of an absolute ALPS packet, and the drivers' power actions. Where macros are
-- inverted the dispatch of a key is an argument, which Keyboard/Messages fills, and so is the dispatch
-- of a Synaptics packet in packetReady, which Trackpad/Gestures/Delivery fills. Calls to the platform
-- that have an effect outside (events to the HID system, signals to the work loop, timers, ends of
-- requests) are recorded in a list or a field, oldest first; those of Keyboard/Events and of
-- Trackpad/Gestures are newest first.
--
-- Bounds and fuel: readDataPort gives up after 10000 polls, which is the counter of the source. The
-- loops that wait for the hardware without a limit (the input buffer, the flush, the bytes of the
-- other device, handleInterrupt) count rounds, and answer none when those are used up; the theorems
-- say how many rounds are enough, or take as a hypothesis that the waits end. The sum of a
-- SimpleAverage is an int of 32 bits that wraps, also where the values are the unsigned times of
-- time_history; the coordinates and distances of Trackpad/Gestures are integers without a bound. The
-- work loops take as many rounds as there are elements in the ring.
--
-- Not modelled: the classes' start, stop and configuration, the set-up commands of the trackpads, the
-- debugger support that is compiled out, the nubs, the daemon and the preference pane.
pub mod Base
pub mod Ring
pub mod Device
pub mod MiddleButton
pub mod Mouse
pub mod Controller
pub mod Keyboard
pub mod Trackpad
