-- ===== src/Foreign/Modbus.antt =====
-- libmodbus and the system calls beside it, over an unknown state `W` of the outside world. A
-- context is the number of the object that its pointer leads to; a null pointer is handed to the
-- library as it is. `errno` comes with the answer of the calls after which it is read.
use modbus_server.Prelude.{ℕ, ◌≡◌, Bool, List, Option}
use modbus_server.Prelude.Int.{ℤ}
use modbus_server.Foreign.Mapping.{Mapping}

pub data Errno : Type 0 where
  eagain ewouldblock eintr : Errno
  other : ℕ → Errno

pub record Modbus (W : Type 0) : Type 0 where
  pub new_tcp : ℤ → W → Option ℕ × W
  pub new_rtu : List ℕ → ℤ → ℕ → ℤ → ℤ → W → Option ℕ × W
  pub set_slave : Option ℕ → ℤ → W → W
  pub set_debug : Option ℕ → Bool → W → W
  pub set_response_timeout : Option ℕ → ℕ → ℕ → W → W
  pub get_socket : Option ℕ → W → ℤ
  pub set_socket : Option ℕ → ℤ → W → W
  pub connect : Option ℕ → W → ℤ × W
  pub tcp_listen : Option ℕ → ℤ → W → ℤ × W
  -- The answer, and the listening socket, which the call gets by reference.
  pub tcp_accept : Option ℕ → ℤ → W → ℤ × ℤ × W
  -- The answer, the query buffer and `errno`.
  pub receive : Option ℕ → List ℕ → W → ℤ × List ℕ × Errno × W
  -- The answer, and the tables that a request may write.
  pub reply : Option ℕ → List ℕ → ℤ → Option Mapping → W → ℤ × Option Mapping × W
  pub close : Option ℕ → W → W
  pub free : Option ℕ → W → W
  pub mapping_new : ℤ → ℤ → ℤ → ℤ → ℤ → ℤ → ℤ → ℤ → W → Option Mapping × W
  pub mapping_free : Option Mapping → W → W
  -- `close(fd)`, `fcntl(fd, F_GETFL, 0)` and `fcntl(fd, F_SETFL, flags)` of the system
  pub close_fd : ℤ → W → W
  pub get_flags : ℤ → W → ℤ × W
  pub set_flags : ℤ → ℤ → W → ℤ × W

-- Accepting a client leaves the listening socket alone.
abbrev pub KeepsListening : {W : Type 0} → Modbus W → Type 0
KeepsListening {W} lib = (c : Option ℕ) (s : ℤ) (w : W) → (lib.tcp_accept c s w).1 ≡ s
