-- ===== src/Lib.antt =====
-- Ot Tcp Modbus Listener
--
-- The program is a service that captures the packets of a network interface and reports the Modbus
-- values in them. OtService (otservice.cpp) gets the calls of the service manager and drives an
-- OtListener (otlistener.cpp), which keeps one Adapter (adapter.cpp) for each start. An Adapter owns
-- a Sniffer (sniffer.cpp), a thread that polls libpcap, takes Ethernet, IPv4 and TCP headers off a
-- packet, and gives the payload of port 502 to a Modbus object (modbus.cpp). A Sniffer also lists
-- the addresses of its segment, to which arpLoop sends requests through Arp (arp.h). Helpers on
-- texts and addresses are in networktools.h, messages go to Logger (logger.cpp).
--
-- The files and the code:
--   Modbus        modbus.h, modbus.cpp. `analyze_modbus_packet` and its branches are
--                 Modbus::analyzeModbusPacket, `process_modbus_packet` with `process_unit` is
--                 Modbus::processModbusPacket. Modbus/Stream and Modbus/Registers hold the view of
--                 the protocol: a payload as a sequence of units, a unit as a block of registers.
--                 Modbus/Payload decodes any payload at all, whole or not, and Modbus/Reading parses
--                 any protocol data unit: what the code does is compared with a telling of these.
--   Sniffer       sniffer.cpp, helper.h. `run`, `monitor_pcap`, `process_ip_packet` (Sniffer/Ip) and
--                 `process_arp_packet` (Sniffer/Arp) are the methods of those names. Sniffer/Frames
--                 lays frames out by the structs of helper.h. Sniffer/Segment is the address list of
--                 the constructor, and arpLoop; Sniffer/Setup is StartPcap and SetPcapFilter.
--                 Sniffer/Session and Sniffer/Printed are about a whole run over some frames;
--                 Sniffer/Extent and Sniffer/Observed about any captured bytes, by the fields of
--                 Sniffer/Fields, and which of them have to be there.
--   Service       otservice.cpp, otlistener.cpp, adapter.cpp and the thread side of sniffer.cpp: the
--                 calls of the service manager and the steps of the sniffer threads are events, in
--                 any order. A thread makes a step for each of the two tests of `m_stop`, and one
--                 for pcap_next_ex with what follows it. Service/Client is what OtListener::init makes of the device's
--                 data, Service/Startup the whole of it with the constructors of Adapter
--                 and Sniffer, Service/LogPath the path of the log file, Service/Create the constructor
--                 of OtService, Service/Destroy its destructor with those of its children.
--                 Service/Waits is OtListener::stop and setPause with a wait for each adapter, and
--                 Service/Loop compares the steps of a thread with the loop of Sniffer/Loop.
--                 Service/Process is the calls on the whole process, with the client data, the log
--                 and the end by a failed start, and with what MonitorPcap sees in the steps of the
--                 threads; Service/Process/Refines compares its threads with those of Service alone,
--                 Service/Process/Capturing and Service/Process/Printed are about what a started
--                 service sees and prints, Service/Process/Gone about a start that fails,
--                 Service/Process/Paused about a pause,
--                 Service/Process/Flags about the stop flags over all calls.
--   Main          main.cpp, with the calls that the service manager makes as an argument.
--   Arp           arp.h. `send_arp_packet` is the trace of calls that sendArpPacket makes, with what
--                 it complains of, as a function of its arguments and of what malloc and the system
--                 give, or the fault of a null pointer or of a strcpy past its block; Arp/Header is
--                 the frame, Arp/Memory allocate_strmem and allocate_ustrmem, Arp/Counts what a
--                 trace leaves behind. The loop over the segment is in Sniffer/Segment, with
--                 Sniffer/Sweep and Sniffer/ArpLoop.
--   NetworkTools  networktools.h: split, isNumber, validateIP, get_IP_from_int, get_int_from_IP,
--                 geNetSegment (NetworkTools/Answer is about validateIP, NetworkTools/Tokens about
--                 get_int_from_IP); RemoveSpecials, changeTrCharacters and cleanQString
--                 (NetworkTools/Clean); getDeviceInfo (NetworkTools/Device). The helpers that call
--                 the system: iptos (NetworkTools/Iptos), ExecShell (NetworkTools/Shell),
--                 getInstalledSoftware (NetworkTools/Software), getOpenPorts (NetworkTools/Ports),
--                 SetSocketBlockingEnabled, isPortOpen, getHostName and getIpMask
--                 (NetworkTools/Sockets), and the rest (NetworkTools/System). Where a helper has a
--                 body of its own for Windows or the Mac, that is a definition of its own.
--   Logger        logger.h, logger.cpp. What QFile::open gives for the log file, or that it fails, is
--                 an argument.
--   Qt, Net       what the program uses of Qt, as an interface of operations and laws, and of the C
--                 library: inet_ntoa, ether_ntoa, stoi, to_string, and C strings in buffers.
--   Prelude       names and lemmas that the others share. `Outcome` is a value or a fault: a read
--                 or a write past a buffer, a missing return, a pointer that was never set, an exception.
--
-- The parts of the program have child modules for their proofs, and tests on concrete inputs in
-- modules whose names end in Examples, with shared data in those that end in Sample.
--
-- Bounds and fuel. Bytes and fields are native numbers; a buffer is the list of its bytes, and is
-- shorter than 2^31 bytes. The size of a packet on the wire is any number, of which an `int` keeps
-- 32 bits (`int32` of Prelude/Int). get_int_from_IP keeps its
-- `int` shift and its 64-bit sum. processModbusPacket calls itself on a shorter payload, so its fuel
-- is one more than the payload's size; the loops of split and get_int_from_IP have the size of their
-- text plus one. Modbus/Fuel, NetworkTools/Split and NetworkTools/Tokens are about
-- these amounts. The loop of ExecShell reads at least one character in each round, so its fuel is
-- the length of the output plus one. The waits of the destructors are given as the numbers of steps that
-- the threads make in them.
--
-- Not modelled: qtservice/ and httprequest.h, which are copies of other projects' libraries, with
-- checksoftwares.h, which the repository does not have; the record of assets in networktools.h,
-- which nothing uses; the static pointer to the one Logger. In the packet code `malloc`
-- succeeds.
pub mod Prelude
pub mod Qt
pub mod Net
pub mod NetworkTools
pub mod Modbus
pub mod Logger
pub mod Service
pub mod Arp
pub mod Main
pub mod Sniffer
