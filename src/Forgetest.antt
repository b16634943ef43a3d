-- ===== src/Forgetest.antt =====
-- forgetest/mock.go and forgetest/pipe.go: streams in memory. A MockStream reads from one
-- bytes.Buffer and writes to another; its deadlines are accepted and never pass, since no byte of a
-- buffer makes a reader wait.
pub mod Served
use go_p2p_forge.Prelude.{Bool, List, Option, String, [], false, none, true, ℕ, ℤ}
use go_p2p_forge.Codec.Conn.{Result, err, Ending, closes, Conn, Sink}
use go_p2p_forge.Codec.Conn.Laws.{payload}
use go_p2p_forge.Codec.Frame.{FrameError, read_frame, write_frame, write_frame_with_timeout}
use go_p2p_forge.Codec.Frame.Arrived.{arrived}

pub record MockConn : Type 0 where
  pub remote_peer : String

pub record MockStream : Type 0 where
  pub read_buf : List ℕ
  pub write_buf : List ℕ
  pub conn : MockConn
  pub proto : String
  pub closed : Bool

unfoldable pub new_mock_stream : String → List ℕ → MockStream
new_mock_stream peer content = record {
  read_buf = content;
  write_buf = [];
  conn = record { remote_peer = peer };
  proto = "";
  closed = false;
}

-- A bytes.Buffer as a writer, which grows, and as a reader. Neither has deadlines.
abbrev pub buffer_writer : List ℕ → Sink
buffer_writer content = record {
  written = content;
  room = none;
  bounded = false;
  armed = false;
  cut = false;
}

abbrev pub buffer_reader : List ℕ → Conn
buffer_reader content = record {
  input = arrived content;
  ending = closes;
  clock = 0;
  deadline = none;
  bounded = false;
}

-- The error of WriteFrame is dropped.
unfoldable pub new_mock_stream_with_frame : String → List ℕ → MockStream
unfolding new_mock_stream write_frame
new_mock_stream_with_frame peer content =
    new_mock_stream peer (write_frame (buffer_writer []) content).1.written

-- The two ends of the stream that a pipeline works on, and the stream after it has.
unfoldable pub reading_end : MockStream → Conn
reading_end ms = record {
  input = arrived ms.read_buf;
  ending = closes;
  clock = 0;
  deadline = none;
  bounded = true;
}

unfoldable pub writing_end : MockStream → Sink
writing_end ms = record {
  written = ms.write_buf;
  room = none;
  bounded = true;
  armed = false;
  cut = false;
}

unfoldable pub after_use : Conn → Sink → MockStream → MockStream
after_use c s ms = record ms { read_buf = payload c.input; write_buf = s.written }

abbrev pub drained :
    MockStream → Result FrameError (List ℕ) × Conn → Result FrameError (List ℕ) × MockStream
drained ms (r, c) = (r, record ms { write_buf = payload c.input })

unfoldable pub read_response_frame : MockStream → Result FrameError (List ℕ) × MockStream
unfolding read_frame
read_response_frame ms = drained ms (read_frame (buffer_reader ms.write_buf))

unfoldable pub close : MockStream → MockStream
close ms = record ms { closed = true }

unfoldable pub is_closed : MockStream → Bool
is_closed ms = ms.closed

unfoldable pub set_protocol : String → MockStream → MockStream
set_protocol id ms = record ms { proto = id }

unfoldable pub protocol : MockStream → String
protocol ms = ms.proto

-- `Conn().RemotePeer()`
unfoldable pub remote_peer : MockStream → String
remote_peer ms = ms.conn.remote_peer

-- CloseRead, CloseWrite, Reset and ResetWithError do nothing, and so do the three that set deadlines.
unfoldable pub shut_end : MockStream → MockStream
shut_end ms = ms

unfoldable pub set_deadline : ℤ → MockStream → MockStream
set_deadline t ms = ms

-- MockConn.NewStream: io.ErrClosedPipe.
pub data Refusal : Type 0 where
  closed_pipe : Refusal

unfoldable pub new_stream : MockConn → Result Refusal MockStream
new_stream mc = err closed_pipe

unfoldable pub close_conn : MockConn → MockConn
close_conn mc = mc

unfoldable pub conn_is_closed : MockConn → Bool
conn_is_closed mc = false

abbrev pub stream_id : String
stream_id = "mock-stream-1"

abbrev pub conn_id : String
conn_id = "mock-conn-1"

-- A PipeStream is one end of a net.Pipe, which has deadlines, and whose reads wait for the other end.
pub record PipeStream : Type 0 where
  pub reading : Conn
  pub writing : Sink
  pub conn : MockConn
  pub proto : String

-- What the client end sends, how it ends, and how much of the answer it reads, are the test's.
unfoldable pub new_pipe_stream : String → List (ℕ × ℕ) → Ending → Option ℕ → PipeStream
new_pipe_stream peer sent ending room = record {
  reading = record { input = sent; ending = ending; clock = 0; deadline = none; bounded = true };
  writing = record { written = []; room = room; bounded = true; armed = false; cut = false };
  conn = record { remote_peer = peer };
  proto = "";
}
