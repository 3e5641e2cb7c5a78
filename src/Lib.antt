-- ===== src/Lib.antt =====
-- A model of baetyl-bacnet, which connects BACnet/IP devices to the baetyl framework, with proofs:
-- its BACnet/IP client (bacip, bacnet and internal/encoding) and its workers (baetyl-bacnet, dmp
-- and main.go).
--
-- The program. A client sends requests to BACnet devices over UDP and hands their answers to the
-- calls that wait for them. A frame (BVLC) holds a network packet (NPDU), which holds an
-- application packet (APDU), whose payload is a service's data. The services encode their fields
-- with the encoder and the decoder of internal/encoding, which put a tag in front of every value. A
-- call of ReadProperty or WriteProperty takes an invoke id from the transactions, registers a
-- channel under it, sends its request and waits; the handler of received packets finds the channel
-- by the id of the answer. WhoIs broadcasts a request and collects the announcements until its
-- timer ends. main.go makes the configuration of the devices of the framework; NewBacnet finds a
-- slave, which is a BACnet device, for each of them, and a worker that reads the properties of its
-- job and reports what the device's access template makes of them. The framework calls back with
-- changes, which are written to the BACnet properties that the template names.
--
-- The files.
-- - Common: names of the libraries, Boolean tests (Tests), lists over native numbers (Lists), bit
--   operations as arithmetic (Bits), Go's errors, results and panics (Go), strings as their bytes
--   (Text), and maps as association lists (Dict).
-- - Bacnet: bacnet/types.go. ObjectId has `Encode` and `ObjectIDFromUint32`, Address the
--   conversions with UDP addresses, Value what an `interface{}` of the program holds, Device the
--   other structs. Names has the constants of types.go (Objects), errors.go (Errors), properties.go
--   (Properties) and units.go (Units) with their String methods in bacnet/*_string.go.
-- - Encoding: internal/encoding. Bytes and Buffer are encoding/binary and bytes.Buffer as the
--   package uses them; Tag is tag.go, Encoder (Unsigned, Abstract) is encoding.go, Decoder (Reflect,
--   AppData, Abstract) is decoding.go. Tag/Shape, Tag/RoundTrip, Tag/Takes, Decoder/Retry,
--   Decoder/Panics, Decoder/Fits, the Stores modules and RoundTrip hold the proofs.
-- - Bacip.Services: bacip/services.go, its two directions in Marshal and Unmarshal. Bacip.Apdu,
--   Bacip.Npdu and Bacip.Bvlc: bacip/network_types.go, with the proofs in their RoundTrip, Typed and
--   Delimited modules. Bacip.Names has the enumerations of the package, with their String methods.
-- - Bacip.Transaction: bacip/transaction.go.
-- - Bacip.Client: bacip/client.go. Calls has the steps of ReadProperty and WriteProperty and their
--   interleavings, Handler `handleMessage` and what a call makes of its answer, Requests the packets
--   of the requests and `send` and `broadcast`, Collect the loop of `WhoIs`, Interface the addresses
--   that `NewClient` and `NewClientByIp` choose, Listen what `listen` does with a datagram,
--   Subscriptions (Stuck, Overlap) the lock and the channel between the handlers and `WhoIs`, Invoke
--   `ReadProperty` and `WriteProperty` from the request to the result, Search (Finds, Cut) `WhoIs`
--   and the loop of `listen`. Holders, Routing, Refinement (Table) and Drain are about interleavings;
--   Delivery, Answers, Sending, Writing, Discovery and Decoded are about packets; Broadcast is about
--   `broadcastAddr`.
-- - Dmp: dmp/dmp_adapter.go is Adapter. Framework has the structs of the framework that the program
--   reads, and records of the functions that it calls, which are parameters.
-- - Baetyl: baetyl-bacnet and main.go. Config is config.go, Slave (Found) is slave.go, Worker
--   (Origin, Latest) is worker.go, Service (Served) is `NewBacnet` of bacnet.go, Service.Loop its
--   `working`, Delta (Writes, Done, Covers, Complete, OnWire) its callbacks, Setup (Keys, Aligned) is
--   `genConfig` of main.go, Driver (Distinct, Serves) its `main`.
-- - Tests: runs, and the properties at concrete input.
--
-- The model. A byte, a uint16 and a uint32 are natural numbers below 2 ^ 8, 2 ^ 16 and 2 ^ 32, with
-- the wrap-around of the source written out; a float is its bit pattern. An error is a value of
-- Go.Error, whose texts are those of the source; a function that may panic returns an Outcome. A
-- receiver that a method changes is an argument, and a part of the result. A pointer that may be
-- nil is an Option. A time.Duration is an integer, and an int has 64 bits. Every loop goes through
-- a list or a number; the only fuel is that of `strconv.FormatUint`, which is 20 digits, as many as
-- a uint64 has at most. The reads of a loop over a channel are a list of what arrives, in the order
-- in which its select chooses it. A goroutine's call is a list of steps, each of them atomic, since
-- the mutex and the channel of the transactions make them so; a schedule is a list of events of any
-- calls, and an operation that blocks is an event that cannot happen. Channels and contexts are
-- known by numbers. The choice of a `select` between a receiver and a context that is done is an
-- argument of the handler.
--
-- The workers. A string is the list of its bytes, a map the list of its entries in the order in
-- which Go goes through it, which may be any. What the code relies on outside is a parameter: the
-- framework's devices, templates and reports (Context), its expressions (Dmcontext), the YAML
-- decoder and the defaults (Source), Go's rounding conversions of floats (Floats), and, of the
-- client, what the n-th read, write, connection and search end with (Bus, Network); the theorems
-- hold for any of them. The signed integers of a packet are the patterns of their bits.
--
-- What the loops of `listen` and `working` and of `WhoIs` receive is a list: of datagrams, of ticks
-- and the closing of the channel, of packets before the timer ends. `listen` starts a goroutine for
-- each datagram: its list is in the order in which their handlers reach the subscription, which may
-- be any. The reads of a round are numbered from the number that its tick brings, whatever the
-- other workers have read.
--
-- Not modelled: sockets, timers and loggers themselves, the calls of the compiler that compare the
-- generated tables with the constants, what a handler does when the subscription is cleared between
-- its test and its call, the fields Method, Version and BLinkKey of dmp, which nothing uses, and
-- the memory that a large length asks for.
pub mod Common
pub mod Bacnet
pub mod Encoding
pub mod Bacip
pub mod Dmp
pub mod Baetyl
pub mod Tests
