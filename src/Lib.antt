-- ===== src/Lib.antt =====
-- A model of Nighthawk, the HTTP benchmark client, and of its adaptive load controller.
--
-- The program. Options come from the command line or from a message, and are handed on as a message.
-- From them, factories make the parts of each worker: its rate limiter, its termination predicates
-- and its request source. A process starts the workers one after the other, waits for them, and
-- merges their statistics and the outputs of plugins. A worker thread runs a sequencer, which asks its rate limiter for permission and
-- then its target, the benchmark client, to start a request; after each wake-up it asks a chain of
-- termination predicates whether to stop. The benchmark client takes a request from its request
-- source and hands a stream decoder to the connection pool; the decoder reports the end of the
-- request to the client and, through a callback, to the sequencer. The adaptive load controller
-- runs benchmarks one after another through a Nighthawk service, has the metrics evaluator judge
-- each response and a step controller choose the next load, until the load has converged. A sink
-- stores the responses of the parts of a distributed execution and merges them.
--
-- The files and their code.
--   Base              shared names, words of 64 bits, results with exceptions, absl::StrCat, texts as
--                     lists of character codes
--   Common.Uri           source/common/uri_impl.{h,cc} and the port separator of utility.cc
--   Common.Counters      the mapping of counters in source/common/utility.cc
--   Common.Statistic     source/common/statistic_impl.{h,cc}, and in Merge the merge of the workers'
--                        statistics of source/client/process_impl.cc
--   Common.Worker        source/common/worker_impl.{h,cc}
--   Common.Termination   source/common/termination_predicate_impl.{h,cc}
--   Common.RateLimiter   source/common/rate_limiter_impl.{h,cc}, with a child for each kind:
--     Pacing             LinearRateLimiter, LinearRampingRateLimiterImpl and its factory
--     Bursting           BurstingRateLimiter
--     Scheduled          ScheduledStartingRateLimiter
--     Delegating         DelegatingRateLimiterImpl
--     Filtering          FilteringRateLimiterImpl, GraduallyOpeningRateLimiterFilter
--   Common.Sequencer     source/common/sequencer_impl.{h,cc}
--   Common.RequestSource   source/common/request_source_impl.cc and
--                          source/request_source/request_options_list_plugin_impl.cc
--   Client.BenchmarkClient   source/client/benchmark_client_impl.{h,cc}
--   Client.StreamDecoder     source/client/stream_decoder.{h,cc}
--   Client.Options           source/client/options_impl.{h,cc} and api/client/options.proto: the members,
--                            Message (the message), ToMessage, FromMessage and Validate
--   Client.Factories         source/client/factories_impl.cc: Predicates, Limiters and Header
--   Client.Process           source/client/process_impl.cc: Starts, Outputs and Results
--   UserDefinedOutput   source/user_defined_output/log_response_headers_plugin.cc and
--                       user_defined_output_plugin_creator.cc
--   AdaptiveLoad.StepController   source/adaptive_load/step_controller_impl.{h,cc} and
--                                 source/adaptive_load/scoring_function_impl.{h,cc}
--   AdaptiveLoad.Session   source/adaptive_load/adaptive_load_controller_impl.cc
--   AdaptiveLoad.MetricsEvaluator   source/adaptive_load/metrics_evaluator_impl.cc
--   AdaptiveLoad.MetricsPlugin   source/adaptive_load/metrics_plugin_impl.cc
--   AdaptiveLoad.SessionSpec   source/adaptive_load/session_spec_proto_helper_impl.cc
--   Sink.Store   the in-memory sink of source/sink/sink_impl.cc
--   Sink.Merge   the merge of responses of source/sink/service_impl.cc
-- A definition has the name of the function that it models, in lower case with underscores. The
-- child modules of a part hold its proofs, and Tests its runs.
--
-- State. A class is a record of its fields, and a method a function from the state before to the
-- state after, with its result. A call of the environment is explicit: a clock reading is an
-- argument, a statistic is the list of the values added to it, and the dispatcher's timers and the
-- calls in flight are fields of the sequencer. A limiter is any type with the operations of the
-- record RateLimiter, so that the limiters that wrap another one, and the sequencer, are generic in
-- it, as the classes are. An exception or a failed assertion is an error of Result, an absl::Status
-- one of StatusOr.
--
-- Numbers. Counters of 64 bits wrap around (Base.Words); times are nanoseconds without a bound. The
-- arithmetic of doubles is exact in the rate limiters and in the delay between workers, where it is on
-- quotients of integers, and is a parameter in the adaptive load controller and in the statistics.
-- Durations and starts of options and of outputs are not negative.
--
-- Fuel. The loop of the sequencer's run() goes on as long as the limiter and the target allow, so
-- it has fuel for its rounds; a limiter that grants a bounded number of acquisitions at one instant
-- needs that number and one more. The adjusting stage runs over a given list of benchmarks, and
-- needs one that ends after the deadline.
--
-- Threads. The calls of the owner of a worker and the steps of its thread are constructors of a
-- relation that reaches the states of the worker, in any order. The six steps that end a worker are
-- its stages after the exit is signalled; work() is one of them, and is taken to return.
--
-- Libraries. What Envoy, Abseil and protobuf do is a parameter: the extraction of the host from a
-- URI, the parsing of a port, the generated validation of a message, the merging of messages, the
-- map of the request headers, random values, the loading of plugins, the names of counters. The
-- merge of a message through an empty std::optional is undefined and may have any outcome; an access
-- out of range is taken for the end of the process.
--
-- Not modelled: the parsing of the command line by TCLAP, process bootstrap, output formatting, gRPC
-- and protobuf, tracing, file access, DNS, and the connection pools, which are Envoy's; the
-- histograms of HdrHistogram and circllhist; the Zipf limiter and the remote request source, which
-- rest on such code; the test server; the encapsulation of a tunnel, which is a process of its own.
pub mod Base
pub mod Common
pub mod Client
pub mod AdaptiveLoad
pub mod Sink
pub mod UserDefinedOutput
