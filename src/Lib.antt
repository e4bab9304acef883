-- ===== src/Lib.antt =====
-- grpcmcp serves the unary methods of a gRPC backend as tools of the Model Context Protocol. It reads
-- the backend's descriptors from a file or over reflection, builds a tool for each method with a JSON
-- schema of its input, serves them over stdio or HTTP, and turns each tool call into one call of the
-- backend with headers of its configuration and of the inbound request. While it runs it reflects
-- again at intervals, and it reloads certificates from their files.
--
-- Which file is about which code:
--   Descriptor      the accessors of descriptorpb and protoreflect that the code reads
--   Reflection      LoadDescriptorsFromReflection and topSort (grpcmcp/server.go)
--   Cert            certReloader and loadKeyPair (tls.go)
--   Header          http.Header of the standard library, as far as the code calls it
--   Forward         StaticHeaders and addHeaders (grpcmcp/server.go); operatorIdentityHeaders,
--                   forwardHeaders, headerFlags and the checks for collisions (main.go)
--   Gate            the handlers in front of the HTTP transports (origin.go)
--   Naming          buildToolNamer, buildRegistry and generateToolName (main.go)
--   Program         what main makes of accepted flags: the configuration, the server with its tools,
--                   and its refreshes (main.go)
--   Tools           Tools, toolAnnotations, toolHandler, NewServer and the choice of clients
--                   (grpcmcp/server.go)
--   Refresh         refreshTools (refresh.go) and the loop of main that calls it
--   Startup         the checks that main makes of its flags, loadDescriptors and parseServices (main.go)
--   Launch          the end of main: transports, handlers and TLS (main.go)
--   Tls             certPoolFromFile, serverTLSConfig, serveTLS and backendTLSClient (tls.go)
--   Options         methodOptionFields, hasMethodOption and getMethodOptionString (main.go)
--   Echo            echoHandler and buildEchoFile (example/echo.go), and the routes of example/main.go
--   Schema          the generator of JSON schemas (buf/jsonschema.go):
--     Keywords, Members, Rules, Signed, Unsigned   generateIntValidation and generateUintValidation,
--                   and the rules of a number as protovalidate documents them
--     Bytes         base64EncodedLength and the length keywords
--     Floats, Json  float values, and schemas as JSON objects
--     Fields        descriptors, rules and options as the generator reads them; hasImplicitDefault,
--                   generateDefault, nameToTitle
--     Scalars, Enums, Reals, Texts   generateBoolValidation to generateBytesValidation
--     Values        setDescription, shouldIgnoreField, getFieldRules, generateFieldValidation
--     Messages      generateMessage, generateField, addFieldProperties
--     Generate      Generate, generate, getID and makeWktGenerators
--     Choices       GeneratorOption, NewGenerator and getRef, and the options that Tools gives
--     Bundles       Add and Generate of a generator, bundleSchema and bundleReferences
--   Base            what all of these share
--
-- How the code is read. A function of the source is a function of the same name in snake case. A value
-- with an error is a Result. A method that changes its receiver returns the new state. A map is an
-- association list, and where the source ranges over a map the order is a parameter or the order of
-- the list. Header maps are shared by pointer, so the providers of Forward run over a heap of maps.
-- Texts are sequences of Unicode characters, in which the code looks for ASCII characters only. Times
-- are numbers of seconds. The system, the network and the libraries outside of the repository answer
-- through parameters: the reflection stream, the file system and the clock, protoregistry, the JSON
-- and protobuf codecs, the client of the backend, strconv.ParseUint and strings.TrimSpace.
--
-- Fuel. top_sort recurses along dependencies, which may form a cycle; each call below another has
-- marked one more file of the map, so one more than the number of files is enough fuel, and
-- load_descriptors gives that much. generate_message takes one unit of fuel for each message that is
-- nested in another; for messages that do not nest themselves more than their depth is enough, and for
-- others none is, as the source does not end there. bundle_references has one more than the number of
-- messages, since each call below another adds a definition. method_option_fields takes one unit for
-- each field and has as many as there are bytes. All other loops are structural.
--
-- Machine integers. The bounds of integer fields are integers of any size with the bounds of their
-- type as hypotheses; base64_encoded_length wraps at 2^64 as uint64 does. The counters of Naming and
-- the numbers of tools stay far below the range of int and are natural numbers.
--
-- Floats. A finite float is a whole number of units of 2^-1074, of which each float32 and float64 is a
-- multiple; the code compares floats and copies them, and computes nothing with them.
--
-- Messages. A message descriptor is the value of its full name under a function, which may give messages
-- that nest each other. The rules that protovalidate resolves for a field are part of the field. No line
-- of the package writes the references of a message, so that a bundle has the schema of its own message.
--
-- Rules. What the rules of a field allow is what protovalidate documents of those that the generator
-- reads. It reads not_in for enums alone.
--
-- Not modelled: what a regular expression in a schema matches; the encoding of a schema, which is a
-- parameter of Tools, given by the generator of Schema where the two meet; the MCP servers and the HTTP
-- servers themselves, which are libraries, and so is the package flag; the transports of HTTP clients.
pub mod Base
pub mod Cert
pub mod Descriptor
pub mod Echo
pub mod Forward
pub mod Gate
pub mod Header
pub mod Launch
pub mod Naming
pub mod Options
pub mod Program
pub mod Reflection
pub mod Refresh
pub mod Schema
pub mod Startup
pub mod Tls
pub mod Tools
