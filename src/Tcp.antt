-- ===== src/Tcp.antt =====
-- Kernel/src/Net/TCP.cpp, with Kernel/include/Net/Socket.h and Net.h: the state of a TCP socket, the
-- header of a segment, and the segments that a socket sends.
pub mod Ports
pub mod Receive
pub mod Calls
use lori_os.Prelude.{
  ℕ, zero, suc, ◌+◌, ◌*◌, ◌^◌, ◌%◌, List, [], ◌∷◌, ◌++◌, Bool, true, false, not, ◌&&◌, ◌||◌, Option,
  none, some, leb, ◌==◌, if◌then◌else◌, add32,
}
use lori_os.Stream.DataStream.{DataStream}

-- `TCPSocket::State`
pub data State : Type 0 where
  unknown listen syn syn_ack established fin_wait_1 fin_wait_2 close_wait last_ack time_wait : State

-- `TCPHeader` in the byte order of the host; the data offset counts words of 4 bytes.
pub record Header : Type 0 where
  pub src_port : ℕ
  pub dest_port : ℕ
  pub sequence : ℕ
  pub ack_number : ℕ
  pub data_offset : ℕ
  pub fin : Bool
  pub syn_flag : Bool
  pub rst : Bool
  pub psh : Bool
  pub ack : Bool
  pub urg : Bool
  pub ece : Bool
  pub cwr : Bool
  pub ns : Bool

-- A segment that was given to `SendIPv4`; the checksum and the window are left out.
pub record Segment : Type 0 where
  pub header : Header
  pub payload : List ℕ

-- `TCPPacket`: what was sent and not acknowledged
pub record Packet : Type 0 where
  pub number : ℕ
  pub payload : List ℕ

-- A blocked thread with the length that it requested.
pub record Blocker : Type 0 where
  pub thread : ℕ
  pub requested : ℕ

pub record Socket : Type 0 where
  pub state : State
  pub address : ℕ
  pub peer_address : ℕ
  pub port : ℕ
  pub destination_port : ℕ
  pub bound : Bool
  pub sequence_number : ℕ
  pub last_acknowledged : ℕ
  pub remote_sequence_number : ℕ
  pub unacknowledged : List Packet
  pub inbound : DataStream
  pub blocked : List Blocker
  pub file_closed : Bool
  pub handle_count : ℕ
  pub woken : List ℕ
  pub sent : List Segment

-- sizeof(TCPHeader) / 4
abbrev pub header_words : ℕ
header_words = 5

-- a header after `memset` and the fields that every sender sets
unfoldable pub blank : Socket → ℕ → Header
blank s number = record {
  src_port = s.port;
  dest_port = s.destination_port;
  sequence = number;
  ack_number = 0;
  data_offset = header_words;
  fin = false;
  syn_flag = false;
  rst = false;
  psh = false;
  ack = false;
  urg = false;
  ece = false;
  cwr = false;
  ns = false;
}

abbrev pub send : Socket → Header → List ℕ → Socket
send s h bytes = record s { sent = s.sent ++ (record { header = h; payload = bytes } ∷ []) }

-- `Synchronize`, `Acknowledge`, `SynchronizeAcknowledge`, `Finish`, `FinishAcknowledge` and `Reset`
pub synchronize : ℕ → Socket → Socket
unfolding blank
synchronize number s = send s (record (blank s number) { syn_flag = true }) []

unfoldable pub acknowledge : ℕ → Socket → Socket
unfolding blank
acknowledge number s =
    send s (record (blank s s.sequence_number) { ack_number = number; ack = true }) []

pub synchronize_acknowledge : ℕ → ℕ → Socket → Socket
unfolding blank
synchronize_acknowledge number ack_number s =
    send s (record (blank s number) { ack_number = ack_number; syn_flag = true; ack = true }) []

pub finish : Socket → Socket
unfolding blank
finish s = send s (record (blank s s.sequence_number) { fin = true }) []

pub finish_acknowledge : ℕ → Socket → Socket
unfolding blank
finish_acknowledge number s =
    send s (record (blank s s.sequence_number) { ack_number = number; ack = true; fin = true }) []

pub reset : Socket → Socket
unfolding blank
reset s = send s (record (blank s s.sequence_number) { rst = true }) []

-- `UnblockAll`
abbrev pub threads : List Blocker → List ℕ
threads [] = []
threads (b ∷ bs) = b.thread ∷ threads bs

unfoldable pub unblock_all : Socket → Socket
unblock_all s = record s { blocked = []; woken = s.woken ++ threads s.blocked }
