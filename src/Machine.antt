-- ===== src/Machine.antt =====
-- The state in which the adapters run: the backend, the outside world, and a log of the calls that
-- acquire or release a descriptor or a context, newest first. The log is an observation: no
-- function reads it.
use modbus_server.Prelude.{ℕ, ◌+◌, List, [], ◌∷◌, Option, none, some, ◌==◌, if◌then◌else◌}
use modbus_server.Prelude.Int.{ℤ, minus_one, eqb_ℤ}
use modbus_server.Foreign.Mapping.{Mapping}
use modbus_server.Foreign.Modbus.{Modbus, Errno}
use modbus_server.Backend.{Backend}

pub data Event : Type 0 where
  -- a descriptor is handed out, or closed
  opened closed : ℤ → Event
  -- a context is allocated, or freed
  created freed : ℕ → Event

pub record Env (W : Type 0) : Type 0 where
  pub world : W
  pub log : List Event

pub record Machine (W : Type 0) : Type 0 where
  pub backend : Backend
  pub env : Env W

-- How often a descriptor was handed out, and closed.
abbrev pub times_opened : ℤ → List Event → ℕ
times_opened fd [] = 0
times_opened fd (opened f ∷ log) = (if eqb_ℤ f fd then 1 else 0) + times_opened fd log
times_opened fd (_ ∷ log) = times_opened fd log

abbrev pub times_closed : ℤ → List Event → ℕ
times_closed fd [] = 0
times_closed fd (closed f ∷ log) = (if eqb_ℤ f fd then 1 else 0) + times_closed fd log
times_closed fd (_ ∷ log) = times_closed fd log

-- How often a context was allocated, and freed.
abbrev pub times_created : ℕ → List Event → ℕ
times_created p [] = 0
times_created p (created q ∷ log) = (if q == p then 1 else 0) + times_created p log
times_created p (_ ∷ log) = times_created p log

abbrev pub times_freed : ℕ → List Event → ℕ
times_freed p [] = 0
times_freed p (freed q ∷ log) = (if q == p then 1 else 0) + times_freed p log
times_freed p (_ ∷ log) = times_freed p log

module _ {W : Type 0} (lib : Modbus W) where
  -- Calls of libmodbus and of the system, with their entry in the log.
  abbrev pub outside : (W → W) → Env W → Env W
  outside f e = record e { world = f e.world }

  unfoldable pub close_fd : ℤ → Env W → Env W
  close_fd fd e = record { world = lib.close_fd fd e.world; log = closed fd ∷ e.log }

  abbrev pub log_opened : ℤ → List Event → List Event
  log_opened fd log = if eqb_ℤ fd minus_one then log else opened fd ∷ log

  abbrev pub log_created : Option ℕ → List Event → List Event
  log_created none log = log
  log_created (some p) log = created p ∷ log

  abbrev pub log_freed : Option ℕ → List Event → List Event
  log_freed none log = log
  log_freed (some p) log = freed p ∷ log

  unfoldable pub new_tcp : ℤ → Env W → Option ℕ × Env W
  new_tcp port e =
      let (ctx, w) = lib.new_tcp port e.world in
      (ctx, record { world = w; log = log_created ctx e.log })

  unfoldable pub new_rtu : List ℕ → ℤ → ℕ → ℤ → ℤ → Env W → Option ℕ × Env W
  new_rtu device baud parity data_bits stop_bits e =
      let (ctx, w) = lib.new_rtu device baud parity data_bits stop_bits e.world in
      (ctx, record { world = w; log = log_created ctx e.log })

  unfoldable pub free_ctx : Option ℕ → Env W → Env W
  free_ctx ctx e = record { world = lib.free ctx e.world; log = log_freed ctx e.log }

  unfoldable pub tcp_listen : Option ℕ → Env W → ℤ × Env W
  tcp_listen ctx e =
      let (fd, w) = lib.tcp_listen ctx (ℤ.pos 1) e.world in
      (fd, record { world = w; log = log_opened fd e.log })

  -- The new descriptor, and the listening socket as the call leaves it.
  unfoldable pub tcp_accept : Option ℕ → ℤ → Env W → ℤ × ℤ × Env W
  tcp_accept ctx listen e =
      let (fd, listen', w) = lib.tcp_accept ctx listen e.world in
      (fd, listen', record { world = w; log = log_opened fd e.log })

  unfoldable pub receive : Option ℕ → List ℕ → Env W → ℤ × List ℕ × Errno × Env W
  receive ctx query e =
      let (rc, query', errno, w) = lib.receive ctx query e.world in
      (rc, query', errno, record e { world = w })

  unfoldable pub reply : Option ℕ → List ℕ → ℤ → Option Mapping → Env W → ℤ × Option Mapping × Env W
  reply ctx query rc mapping e =
      let (answer, mapping', w) = lib.reply ctx query rc mapping e.world in
      (answer, mapping', record e { world = w })

  unfoldable pub connect : Option ℕ → Env W → ℤ × Env W
  connect ctx e = let (rc, w) = lib.connect ctx e.world in (rc, record e { world = w })
