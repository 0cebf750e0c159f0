-- ===== src/Lib.antt =====
-- naabu: a port scanner in Go. The library models the parts that decide what is scanned, what is
-- sent and what is kept of the answers. The options give the ports (pkg/runner/ports.go). The
-- loop of the smart scan (pkg/runner/smartscan.go) goes through the addresses of the targets for
-- one port, tests each against the filters and the results (pkg/result/results.go), and sends SYN
-- packets through the fast sender (pkg/runner/fastsend.go) or queues a probe for the scanner. The
-- prediction model (pkg/prediction/model.go) says which ports are likely to be open where others
-- are.
--
-- * Prelude has the helpers. Its Tests has the Boolean tests on numbers, Lists and Keys the lists
--   and the maps as association lists, Errors the pairs of a value and an error, Int Go's `int`
--   and the conversions between widths, Text the functions of `strings` on lists of character
--   codes, Decimal `strconv.Atoi` and `%d`.
--
-- * Net.Protocol is pkg/protocol/protocol.go, Net.Port is pkg/port/port.go. Net.Cidr has
--   addresses and networks as numbers, and the functions of the package mapcidr as a record of
--   operations with the laws that its documentation gives.
--
-- * Net.HostPort has `net.SplitHostPort` and `net.JoinHostPort` of Go, and Net.Joined is about
--   the two together. Prelude.Search has the functions of `strings` that look into texts.
--
-- * Runner.Options is pkg/runner/options.go with the defaults of pkg/runner/default.go.
--   Runner.Validate is pkg/runner/validate.go: each group of checks is a function from the
--   options to the changed options or to an error with the options at that point, and
--   `ValidateOptions` is their chain. Validate.Valid is about options that pass. Runner.Ports is
--   pkg/runner/ports.go with a function for each of its functions and loops. Bounds, Distinct,
--   Written and Excluded are about it.
--
-- * Runner.FastSend.Ipv4 is `parseIPv4Fast` and `formatIPv4`, Runner.FastSend.Index the target
--   index and `PickIP` of pkg/runner/runner.go, Runner.FastSend.Sender `newSYNSender` and `send`.
--   A sender is a record of its fields without the socket and the batch, and `send` gives the
--   packet and the next sender. Sender.Checksum is about the packets.
--
-- * Runner.SmartScan is `scanSinglePortOnTargets`: a state of the results, the sender and the
--   probes so far, a function for one round, and recursion on the number of rounds. The results
--   that the receiver adds between two rounds are an argument of the loop, as is the point where
--   the context is cancelled. Checked and Sent are about the probes.
--
-- * Runner.PopularityRank and Runner.PortQueue are the queue of ports of pkg/runner/smartscan.go:
--   a list of items and an index, with the methods of heap.Interface and the functions of
--   container/heap, whose loops have the position or the length as fuel. PortQueue.Sift is about
--   swaps, Order about the heap order, and View, Push, Pop and Fill about the queue as a map from
--   ports to priorities.
--
-- * Runner.PredictiveScan is `runPredictiveScan`: the queue, the seed of the permutation and the
--   state of Runner.SmartScan, where the fuel of the loop over the queue is its length. What is
--   reported while a port is scanned is an argument. PredictiveScan.Scanned is about one retry.
--
-- * Runner.Enumerate is the loop of `RunEnumeration` in pkg/runner/runner.go over retries and
--   shuffled indices: a state of the results, the resume point of pkg/runner/resume.go and the
--   probes so far. The permutation of the package blackrock is an argument. The goroutine of
--   `handleHostPort` makes its tests at the time of its start, and what its connection finds is
--   among the arrivals of a later round. Enumerate.Resumed and Enumerate.Covered are about the
--   rounds.
--
-- * Results is pkg/result/results.go: a record of three maps, and a function for each operation.
--   The operations hold a lock, so each is one step. Queries is about single operations, Reached
--   about any sequence of them.
--
-- * Routing is `FindRouteForIp`, `FindRouteWithHwAndIp`, `FindSourceIpForIp` and the two methods
--   of the router in pkg/routing/router.go, on a table whose destinations are parsed.
--   Routing.Longest, Routing.Suitable and Routing.Source are about the routes and the addresses
--   that they choose.
--
-- * Scan.Workers is the part of pkg/scan/scan.go that takes responses: a state of the phase and
--   the results, and a function for each worker; a run is any sequence of responses and changes
--   of the phase. Workers.Answers is about the ports that are found. Scan.Icmp has the message
--   bodies of pkg/scan/icmp.go, and Icmp.Marshalled is about what is read from them.
--   Scan.TcpSequencer is pkg/scan/tcpsequencer.go, and Scan.Cdn is pkg/scan/cdn.go.
--
-- * Banner.Service, Banner.Raw and Banner.Grab are pkg/banner/grabber.go: the record of a service
--   and the ports that are known, the parsers of banners and headers, and `Grab`, where the HTTP
--   client and the connection are functions from an address to an answer. Banner.Grabbed and
--   Banner.Ssh are about what comes out.
--
-- * Vuln.Signature, Vuln.SigDb and Vuln.Exposure are the signatures, their table and the exposure
--   checks of pkg/vuln/scanner.go, and Vuln.Scan is `Scan`, on a state of the keys that are seen
--   and the findings (Prelude.Unseen has this loop). Scanned, Versions and Greeting are about the
--   findings. Runner.Enhance is pkg/runner/enhance.go: the callback that joins Grab and Scan, and
--   the map of the whole scan, which Enhance.Mapped is about. Vuln.Summary has the order, the
--   counts and the wrapping of what is printed.
--
-- * Target is pkg/target/parser.go, and Target.Parsed is about its results. Runner.Resolve is the
--   resolution of names in pkg/runner/util.go and targets.go, on a record of what DNS, the system
--   and the network policy answer. Runner.Targets is `AddTarget` in pkg/runner/targets.go and
--   pkg/runner/ips.go: a state with two logs, of what goes to the ranger and of what goes through
--   the stream channel. Resolve.Excluded and Targets.Resolved are about the addresses.
--   Target.Hosts is what cmd/naabu/main.go derives from the parsed targets. Scan.Ping is
--   pkg/scan/ping.go.
--
-- * Runner.Verify has `ConnectVerification`, `handleHostPort`, `handleHostDiscovery` and
--   `GetTargetIps` of pkg/runner/runner.go, with pkg/scan/connect.go; Verify.Verified is about
--   the results that stay. Runner.Nmap is pkg/runner/nmap.go without the run of nmap, whose
--   report is a record of the fields that are read; Nmap.Updated is about the results.
--
-- * Float has the values of `float64` that are probabilities, as a linear order. Prediction is
--   pkg/prediction/model.go, with `Train` in Prediction.Train; Predict, Merge, Order and Trained
--   are about its operations.
--
-- Numbers of a fixed width wrap around where the code can exceed them: the sequence number, the
-- sums of the checksum and the addresses have 32 bits, ports in packets 16, counts of addresses
-- 64. All loops are recursion on lists, on a count of rounds that the code computes before it
-- starts, or recursion on a fuel that the theorems show to be enough.
--
-- Not modelled: sockets, packet capture, the exchanges of DNS, files, terminal output and HTTP,
-- which are input and output; the reading of the routing tables of the systems; the second banner
-- grabber in pkg/runner/banner_grab.go. Letters outside of ASCII are lowered only where they
-- become letters of ASCII. Packages outside of the repository (mapcidr, blackrock, cdncheck,
-- networkpolicy) are arguments of the definitions that use them.
pub mod Prelude
pub mod Net
pub mod Float
pub mod Banner
pub mod Prediction
pub mod Results
pub mod Routing
pub mod Runner
pub mod Scan
pub mod Target
pub mod Vuln
