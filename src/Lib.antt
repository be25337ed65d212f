-- ===== src/Lib.antt =====
-- Apogee-FC: a CubeSat flight computer, its wire protocol, and the frames that it and the ground
-- exchange.
--
-- The parts. `flight/src/main.cpp` runs one loop. Each round first drains the UART: every byte goes
-- to a stream decoder, and each decoded frame that holds a command is executed and acknowledged. If
-- the telemetry deadline has passed, the round then reads the sensors, evaluates the readings,
-- updates the fault manager, hands its event to the flight-mode state machine, and sends a telemetry
-- frame. The headers of `common/include/apogee` hold these parts. `host/apogee_ground_client.cpp` is
-- the ground's side: it reads a file of frames, or it connects to the flight computer, parses the
-- operator's lines, sends the commands that they spell, feeds what it receives to the same stream
-- decoder and codecs, and prints it.
--
-- The files. FlightMode is flight_mode.hpp (`dispatch`); Telemetry is telemetry.hpp (`capture`);
-- SensorSource is sensor_source.hpp (`read`); Health is health.hpp (`evaluate`, `has_fault`);
-- FaultManager is fault_manager.hpp (`update`, `latched_faults`); CommandProcessor is
-- flight_configuration.hpp and command_processor.hpp (`process`; `request_safe_mode` and
-- `change_telemetry_period` are the methods `enter_safe_mode` and `set_telemetry_period`, whose
-- names the commands have here); Frame, Frame.Crc, Frame.Encode and Frame.Decode are frame_codec.hpp
-- (`encode`, `decode`); Command, Command.Codec and Command.Ack are command_codec.hpp; TelemetryCodec
-- is telemetry_codec.hpp; Stream is frame_stream_decoder.hpp (`push`, `finish`); Flight is
-- flight/src/main.cpp. Ground, Ground.Sequencer and Ground.Text are the `GroundStreamProcessor`, the
-- `CommandSequencer` and the printed text of host/include/apogee/ground_client.hpp. Client.Socket
-- (`connect_tcp`, `send_all`), Client.Offline (`run_offline`), Client.Live (`run_live`) and
-- Client.Program (`main`) are host/apogee_ground_client.cpp, and Client.Mission puts the client and
-- the flight computer together. The other modules below these hold proofs. Base has the words, the
-- lists, the integers and the text that they share; Tests applies the theorems to concrete inputs.
--
-- How state is modelled. An object is a record, and a method returns the record after it. An
-- enumeration has one constructor for each enumerator, and `unlisted n` where the code handles a
-- value of the underlying type that no enumerator names. The command processor holds its state
-- machine and its configuration by reference; here they stand in its record, and `main` reads them
-- there. The handler of the stream decoder is the list of the events that it is called with, in
-- order. Fixed arrays are lists of their length; a write past the end of an array makes its list
-- longer, so that a list that has kept its length shows that there was none. Unsigned words are
-- numbers, with the truncation of every cast and shift that can lose bits written out;
-- `std::int16_t` is an integer with its range as a predicate. The ground's count of decoded messages,
-- a `std::size_t`, is a number without a bound.
--
-- Loops. `process_buffer` runs on fuel `size + 1`: each round that goes on shortens the buffer. Its
-- loop has the result `none` where it has not returned within its fuel, and `process_buffer` takes
-- what it returns. The deadline loop runs on fuel `now - deadline + 1`: each round moves the deadline by a positive
-- period. The loop of `run_offline` runs on fuel `length + 1`: each full read shortens the file.
-- A number `n` is printed on fuel `n + 1`: each digit divides it by ten. All other loops are
-- structural. The infinite loop of the flight computer's `main` is a list of rounds, each with the
-- bytes that wait at the UART, and that of `run_live` a list of rounds, each with what its system
-- calls return; no bound is set on their number.
--
-- Parameters. The clock is any function from the number of earlier readings to a time; where order
-- in time matters, that it does not go back is a hypothesis. Times are not negative and do not
-- overflow 64 bits. The flag of the UART is an argument, and sent bytes are appended to a list. What
-- the system calls of the client return is a list of replies for each call, taken in order; where a
-- list ends, the program waits in that call. A `poll`, `send` or `connect` that is interrupted is a
-- reply with `EINTR`. The bytes that the socket takes are appended to a list, and opened and closed
-- descriptors are recorded. The client's own lines on `std::cerr` and those of the stream processor
-- are two lists, so that their order among each other is not modelled.
--
-- Not modelled: the log output of the flight computer, the sleep at the end of a round, the client's
-- greeting and the wording of its own errors, how `std::getline` and `poll` share the terminal's
-- buffer, the strings of project.hpp, the tests, and the build and simulator configuration.
pub mod Base
pub mod FlightMode
pub mod Telemetry
pub mod SensorSource
pub mod Health
pub mod FaultManager
pub mod Frame
pub mod Command
pub mod TelemetryCodec
pub mod Stream
pub mod Flight
pub mod Ground
pub mod Client
pub mod CommandProcessor
pub mod Tests
