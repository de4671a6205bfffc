-- ===== src/Pidtrack/Flow.antt =====
-- internal/pidtrack/process.go: flows and what is known of a process. Text is a byte list in ASCII;
-- an IP address, which Go keeps as its canonical text, is the address that the text is printed from.
use tachyon_core.Base.{ℕ, Bool, true, false, ◌&&◌, List, ◌==◌}
use tachyon_core.Base.Bytes.{Bytes}
use tachyon_core.Base.Text.{same_text}

-- netip.Addr: the zero value, an IPv4 or an IPv6 address. An IPv6 zone is left out: the callers make
-- addresses of 4 or 16 bytes or of text with no zone, and what is written of an address has no zone.
pub data Ip : Type 0 where
  no_ip : Ip
  v4 : ℕ → ℕ → ℕ → ℕ → Ip
  v6 : Bytes → Ip

abbrev pub ip_eq : Ip → Ip → Bool
ip_eq no_ip no_ip = true
ip_eq no_ip (v4 a b c d) = false
ip_eq no_ip (v6 bs) = false
ip_eq (v4 a b c d) no_ip = false
ip_eq (v4 a b c d) (v4 e f g h) = a == e && b == f && c == g && d == h
ip_eq (v4 a b c d) (v6 bs) = false
ip_eq (v6 bs) no_ip = false
ip_eq (v6 bs) (v4 a b c d) = false
ip_eq (v6 bs) (v6 cs) = same_text bs cs

pub data Transport : Type 0 where
  tcp udp : Transport

pub record FlowKey : Type 0 where
  pub transport : Transport
  pub local_ip : Ip
  pub local_port : ℕ
  pub remote_ip : Ip
  pub remote_port : ℕ

pub record ProcessSummary : Type 0 where
  pub pid : ℕ
  pub name : Bytes
  pub executable_path : Bytes

-- The tags, a map, are pairs of a key and a value.
pub record ProcessInfo : Type 0 where
  pub pid : ℕ
  pub parent_pid : ℕ
  pub name : Bytes
  pub executable_path : Bytes
  pub sha256 : Bytes
  pub command_line : List Bytes
  pub ancestors : List ProcessSummary
  pub tags : List (Bytes × Bytes)
