-- ===== src/Lib.antt =====
-- Verification library of the smart-home terminal: the protocol, alarm and calendar code of the C
-- program, as definitions by clauses and theorems about them.
--
-- The terminal talks to a server over several interfaces. The data link (uplink/uplink_dl.c) builds
-- frames, receives them character by character and sends requests with retries; it takes its checksum
-- and byte order from lib/datachg.c. Tasks of the monitor put alarms into a ring (monitor/alarm.c),
-- whose indices live in the run state (monitor/runstate.c), and the server task (uplink/svrcomm.c)
-- drains the ring through the data link. Times come from sys/syscall/time.c and lib/dbtime.c, packed
-- decimals from lib/bcd.c. The timer task (sys/syscall/timer.c) calls the functions of the other parts
-- in time, the server reads and writes the data items of save/itemop.c, and binary files
-- (sys/storage/bin.c) and files of named values (sys/storage/xin.c) keep their data under the checksum of lib/crc.c.
--
--  * Crc: lib/crc.c (`CalculateCRC`, `CalculateCRCStep`) and of lib/datachg.c `cal_crc`, `GetCRC16`.
--  * Bytes: byte order, plain decimal text and scaling of lib/datachg.c; Bytes/Decimals: its packed
--    decimals.
--  * Bcd: lib/bcd.c (`BcdToUnsigned`, `UnsignedToBcd`, `BcdToInt`, `IntToBcd`, `HexToBcd`, `BcdToHex`, `atox`).
--  * Uplink/Frame: `MakePacketG`, `CheckStreamOK` and the address of uplink/uplink_dl.c.
--  * Uplink/Recv: `UplinkRecvPkt` with its timer. `UplinkFsm`, `UplinkTimer` and the receive buffer of
--    one interface are the record `Link`; a call takes the characters that `getchar` offers until it
--    has no more, and hands back those that it did not read.
--  * Uplink/Send: `UplinkSendPktG`, `IsEchoPkt`, `UplinkSendWait`, `UplinkActiveSend` and the requests.
--    What the interface and the peer do is the record `Line`, an argument: the line's state and the
--    refusals by try, the characters by try and by call.
--  * Uplink/Answer: `faal_makepkt` and `faal_sendpkt` of svrcomm/faal_dl.c and `SvrMessageProc` with its
--    handlers, uplink/svrmsg.c. The parameters and the send are the record `Station`.
--  * Uplink/KeepAlive: the heartbeat counters of uplink/keepalive.c.
--  * Alarm: monitor/alarm.c with the ring's part of `RunStateG`, the lock and the files written, and the
--    loop of `AlarmProc`. A pointer to an alarm is an index into `AlarmCache`; the clock is an argument.
--  * Calendar: the conversions of sys/syscall/time.c and the date steps of lib/dbtime.c.
--  * Storage/Bin: sys/storage/bin.c. A file is the list of its bytes or absent; what `fopen` and `malloc`
--    answer is the record `Os`.
--  * Storage/Xin: sys/storage/xin.c with the shared reference and its buffer, as the record `Xin`. A
--    pointer into the buffer is an offset; the file of the reference's name is an argument. Lines, Run
--    and Find are about the search, Write and Numbers about what is written, Saved, Loaded and Values
--    about a whole file.
--  * Items: save/itemop.c with its tables (Items/Table), the writing and reading of items (Items/Access,
--    Items/Reading), and `SaveParam` of param/operation.c (Items/Saving). Written is about the result of
--    a write, Served, Given and Depth are about groups and their depth. The functions of para_term.c and
--    para_uni.c are an argument; `ParaTermG` is a function from its fields to their bytes. An access
--    beyond the end of a field or an array, which has no meaning in C, has no outcome in the model. No
--    group lies in a group of the tables, so two levels of calls are enough.
--  * Timer: sys/syscall/timer.c. Timer/Links is its linked lists, node by node, Timer/Count the timers
--    that count passes and Timer/Clock those that start at clock times. The fields of the timers are
--    functions from node to value; what a timer's function answers is an argument.
--  * Downlink: the receiver of downlink/downlink_dl.c, modelled as that of the uplink is.
--  * GbData: the formats 02 and 03 of lib/datatype_gb.c.
--  * Base64: monitor/base64.c.
--  * Prelude: numbers, tests, lists, words, exclusive and inclusive or; Tests: runs and examples.
--
-- Numbers of the source are natural numbers with the wrap of their width written out; subtraction is
-- used where the source cannot go below zero, or with the wrap written as an addition. The times of
-- sys/syscall/timer.c are `int`s, given by their 32 bits and compared as signed. The machine is
-- little-endian. A write behind the receive buffer, which has no meaning in C, ends the model's call in
-- `overrun`. The length of the receive buffer is 1152, that of the smallest interface.
--
-- Fuel: the loops of `itoa` run on 11 and 13 rounds, for the ten digits of an `int`; the loops of
-- `UTimeToSysClock` run on 13, for four years and twelve months, and the round trips show that this is
-- enough; the search of xin.c passes a byte in every round and the buffer twice at most; a loop of bin.c
-- over blocks takes a byte a round; `CTimerProc` and `RTimerProc` walk lists of at most 63 nodes in 64
-- rounds; the start of a clock timer moves on in every round, and there are more rounds than `int`s up to
-- the current time; `alarm_proc` is shown to end within one call more than there are alarms unsent.
--
-- Not modelled: sockets, serial lines, files, tasks, the debug shell and prints, which are input and
-- output; the mail program and MD5, copies of other projects' code; the requests to the meters, the
-- parameter files and the other storage formats.
pub mod Prelude
pub mod Crc
pub mod Bytes
pub mod Uplink
pub mod Tests
pub mod Alarm
pub mod Bcd
pub mod Calendar
pub mod Storage
pub mod Base64
pub mod Timer
pub mod GbData
pub mod Downlink
pub mod Items
