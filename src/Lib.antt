-- ===== src/Lib.antt =====
-- WinDV captures digital video from a camcorder into AVI files and plays AVI files back to it. The
-- development models these parts of the program.
--
-- Dv.antt is DV.cpp: the search for the date and time packs in the subcode of a frame (GetSSYBPack
-- is get_ssyb_pack) and the recording time made from them (GetDVRecordingTime is
-- get_dv_recording_time, whose parameter is the C library's mktime). A frame is a function from
-- byte offsets to bytes.
--
-- DvError.antt is DVError.cpp: AnalyzeDVFrame is analyze_dv_frame, ResetErrorStats is
-- reset_error_stats and AccumulateErrorStats is accumulate_error_stats. Every DWORD wraps at 2^32.
--
-- Queue.antt is CDVQueue of DShow.h and DShow.cpp, the ring between the thread that receives frames
-- and the worker thread. put and get are the parts of Put and Get that hold the lock;
-- Queue/Threads.antt has Put, Get and GetWithTimeout as two threads, each step of which is one
-- locked part, one test of m_end or one wait on an event that ends. Queue/Spec.antt is a bounded
-- queue of frames as a list.
--
-- Cdv.antt is the class CDV of DShow.h and DShow.cpp: the state shared by the dialog and the worker
-- threads, and the operations of the dialog (Destroy, BuildCapturing, StartCapturing and so on).
-- Whether a DirectShow object can be built is an argument (Parts); an exception is an Outcome that
-- keeps the parts built before it. Cdv/Capture.antt is CapturingThread, one function for a round
-- with a frame (on_frame) and one for a round without (on_nothing); what others see of a round is a
-- list of effects. Cdv/Playback.antt is RecordingThread, and Cdv/Sending.antt has whole playbacks.
-- Cdv/Rounds.antt has whole sessions of the capture thread, Cdv/States.antt the state machine. The
-- dialog's operations come between the rounds of a worker; that they may come inside a round is not
-- modelled.
--
-- Messages.antt is what the window says of a capture, the texts of OnTimer, OnDVLowDiskSpace,
-- OnDVSignalLost and OnDVCheckComplete of DVToolsDlg.cpp, as lists of pieces that Format prints;
-- Messages/Summary.antt reads the message after a check against the frames of a session.
--
-- AviCheck.antt is AVICheck.cpp: CheckAVIIntegrity walks the RIFF chunks of a file. A file is an
-- AviFile: what the Windows calls answer and the bytes. The two loops over chunks run on fuel; the
-- file's size plus one is enough, since each round moves on by 8 bytes at least. The fuel of the
-- scan of an index is its number of entries, of which a round takes one at least.
--
-- Naming.antt is GetCaptureFilename of DShow.cpp, the path of a capture file with its time and its
-- number; one round more than the number is fuel enough to print its digits. What CFileFind finds,
-- the clock and strftime are parameters. Naming/Written.antt follows the file of a CAVIWriter from
-- its temporary name to its final one, with MoveFile and the writing of the graph as parameters;
-- Naming/Preview.antt is the example of a name that CaptureCfg.cpp shows.
--
-- CommandLine.antt is the command-line part of OnInitDialog in DVToolsDlg.cpp: what a command line
-- asks for, the duration of a capture, and the exit codes of the commands without a dialog.
--
-- Sha256.antt is sha256.c, statement by statement; Sha256/Standard.antt is the hash of FIPS 180-4,
-- written from the standard, with its constants computed from roots of primes; Sha256/Padding.antt
-- has the padded message and its blocks. Checksum.antt is ComputeFileSHA256, WriteSHA256Sidecar and
-- VerifyFileSHA256 of DShow.cpp; the results of ReadFile and the text files of the disk are
-- parameters. CaptureLog.antt is WriteCaptureLog, CaptureLog/Table.antt how such a log is read, and
-- CaptureLog/Session.antt the end of CapturingThread, where the check, the sidecar and the log come
-- together, all of them with the name in m_captureFilename; its fuel for the check is the file's
-- size plus one.
--
-- Joiner.antt is CAVIJoiner of DShow.cpp: the list of files that a text names, and the steps of the
-- reader's thread and of JoinerThread, which play them as one stream. The frames of a file are a
-- parameter.
--
-- Dialog.antt is the main window, CDVToolsDlg of DVToolsDlg.cpp: the handlers of its tabs, buttons
-- and timer, and the commands that start a pipeline, over the operations of Cdv.antt.
-- Dialog/Events.antt has what the user and the worker threads do, Dialog/Display.antt the times
-- that are shown, and Dialog/Layout.antt where OnSize moves the controls of ctrlProperties and
-- which a tab shows, with the dialog template of WinDV.rc (one control in Dialog/Layout/Moved.antt,
-- two in Dialog/Layout/Apart.antt).
--
-- FileList.antt is the text of chosen files: SelectFile of WinDV.cpp, OnDropFiles of
-- DropFilesEdit.cpp with its filter CaptureFilenameExtractBase, the loop of the command "record"
-- and the call of BuildRecording in DVToolsDlg.cpp; FileList/Played.antt follows the text to the
-- list of the joiner. What the dialog and the shell deliver, and what the search finds for a name,
-- are parameters.
--
-- Profile.antt is the settings that OnInitDialog of DVToolsDlg.cpp restores from the profile and
-- OnClose writes to it, with the profile of Windows as an interface, Store; the entries are the
-- texts of the source, and names that differ in case alone are the same. Config.antt is OnConfig,
-- with the limits and the history of CaptureCfg.cpp and the page of RecordCfg.cpp; how Windows
-- compares the entries of a list is a parameter.
--
-- DeviceList.antt is the choice of a device: CVideoDeviceSel of VideoDeviceSel.cpp, and OnVsrcSel
-- and OnVdstSel of DVToolsDlg.cpp up to the call of InitVideo.
--
-- Graphs.antt counts the references that the graph objects of DShow.cpp hold to interfaces of
-- DirectShow: an action takes the interfaces held to those held after it, returns or throws as the
-- source does, and is a fault where the source uses an interface that it does not hold.
-- Graphs/Objects.antt and Graphs/Outputs.antt have the constructors and destructors (CFilterGraph,
-- CAVIReader and CDVInput; CDVOutput, CAVIWriter and CMonitor), Graphs/Devices.antt
-- EnumVideoDevices, Graphs/Pins.antt the pins of the own filters; Graphs/Ends.antt has the rules by
-- which actions are proved. Every answer of DirectShow is a parameter.
--
-- Output.antt is COutputGraph::HandleFrame and CMonitor::Resize of DShow.cpp, and
-- Output/Preview.antt has CMonitor::HandleFrame, MonitoringThread and the destructor as steps of
-- two threads.
--
-- Counters that the source declares as long or REFERENCE_TIME are integers without a bound. Not
-- modelled are the base classes of DirectShow, which the source only calls, the painting of
-- windows, and the wording of the errors that the check of a file finds: they are calls of Windows
-- and MFC, or are left to later work. Examples.antt has concrete frames, rings and sessions.
pub mod AviCheck
pub mod CaptureLog
pub mod Cdv
pub mod Checksum
pub mod CommandLine
pub mod Config
pub mod DeviceList
pub mod Dialog
pub mod Dv
pub mod DvError
pub mod Examples
pub mod FileList
pub mod Graphs
pub mod Joiner
pub mod Messages
pub mod Naming
pub mod Output
pub mod Prelude
pub mod Profile
pub mod Queue
pub mod Sha256
