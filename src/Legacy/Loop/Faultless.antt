-- ===== src/Legacy/Loop/Faultless.antt =====
-- The rounds of json-modbus-server.c after the first one: no line makes the program fault, unless it
-- is an update that writes past the end of the registers.
use modbus_server.Prelude.{
  ℕ, ◌≡◌, sym, ap, subst, ◌∙◌, inl, inr, Bool, true, List, Option, none, some, length, Bool-cases,
}
use modbus_server.Prelude.Int.{ℤ, pos, ltb_ℤ}
use modbus_server.Clib.Fault.{ok, bind-ok, Holds}
use modbus_server.Foreign.Cjson.{Cjson}
use modbus_server.Foreign.Mapping.{Mapping, IsSized}
use modbus_server.Foreign.Modbus.{Modbus, KeepsListening}
use modbus_server.Legacy.{Settings, Server}
use modbus_server.JsonCommand.Faults.{IsOverrun}
use modbus_server.Legacy.Loop.{
  Events, before_input, before_start, before_test, before_stop, before_service, interrupted,
  skip_service, skip_round, stdin_step, rest_of_round, round,
}
use modbus_server.Legacy.Loop.Tables.{ReplyKeeps, KeepsTables}
use modbus_server.Legacy.Loop.Input.{interrupted-Untouched, stdin_step-Untouched}
use modbus_server.Legacy.Loop.Held.{
  IsHeld, interrupted-IsHeld, Untouched-IsHeld, IsRunningWell, interrupted-IsRunningWell,
}
use modbus_server.Legacy.Loop.Release.{round-IsHeld}
use modbus_server.Legacy.Loop.Kept.{Kept}
use modbus_server.Legacy.Loop.Rounds.{round-IsKept}
use modbus_server.Legacy.Loop.Ready.{
  IsUp, interrupted-IsUp, skip_round-IsUp, skip_round-settings, stdin_step-IsUp, rest_of_round-IsUp,
  rest_of_round-settings, rest_of_round-IsRunningWell,
}

-- The tables, if they are there, have so many registers.
abbrev pub IsFitted : ℤ → Option Mapping → Type 0
IsFitted nb none = Unit
IsFitted nb (some m) = IsSized m × (nb ≡ pos (length m.tab_registers))

-- What is taken for granted of libmodbus: new tables have the size that is asked for, and answers
-- keep it; answers do not take tables away; accepting leaves the listening socket alone.
pub record IsDocumented {W : Type 0} (lib : Modbus W) : Type 0 where
  pub make : (a b d e g h i j : ℤ) (w : W) → IsFitted h (lib.mapping_new a b d e g h i j w).0
  pub answer : (nb : ℤ) → ReplyKeeps (IsFitted nb) lib
  pub tables : KeepsTables lib
  pub listening : KeepsListening lib

module _ {W : Type 0} {lib : Modbus W} (d : IsDocumented lib) where
  fitted_kept : Kept lib
  fitted_kept = record {
    P = λ config. IsFitted config.nb_holding_regs;
    absent = λ config. tt;
    update = λ config m r same t. (t.0 ∙ ap pos (sym same), t.1 ∙ ap pos (sym same));
    make = λ config w. d.make _ _ _ _ _ _ _ _ w;
    answer = λ config. d.answer config.nb_holding_regs;
  }

  -- What holds between two rounds.
  pub record IsPrepared (settings : Settings) (s : Server W) : Type 0 where
    pub same : s.settings ≡ settings
    pub held : IsHeld lib s
    pub fitted : IsFitted s.settings.config.nb_holding_regs s.backend.mapping
    pub up : IsUp s

-- A line that is no update of two words at the last register.
abbrev pub IsFit : {Item Double : Type 0} → Cjson Item Double → ℕ → Events → Type 0
IsFit c next ev = (text : List ℕ) → ev.line ≡ some text → ¬ (IsOverrun c text next)

module _ {Item Double W : Type 0} (c : Cjson Item Double) {lib : Modbus W} (d : IsDocumented lib)
    (settings : Settings) where
  -- A round that ends leaves the server as it is to be between two rounds,
  pub round-IsPrepared :
      (ev : Events) (query : List ℕ) (s : Server W) (r : Bool × List ℕ × Server W)
      → round c lib ev (query, s) ≡ ok r
      → s.running ≡ true
      → IsPrepared d settings s
      → IsPrepared d settings r.2
  unfolding round fitted_kept
  round-IsPrepared ev query s0 r ran on p =
      let s = interrupted before_input ev s0 in
      let calm = interrupted-Untouched before_input ev s0 in
      let up = interrupted-IsUp before_input ev s0 p.up in
      let held = round-IsHeld c lib d.listening d.tables ev query s0 r ran on p.held in
      let fitted = round-IsKept c (fitted_kept d) ev query s0 r ran on p.fitted in
      elim (Bool-cases (ltb_ℤ ev.ret (pos 0))) [
        | inl failed ↦
            let Same : Bool × List ℕ × Server W → Type 0 =
              λ x. (x.2.settings ≡ settings) × IsUp x.2 in
            let (same', up') =
              subst (Holds Same) (rw failed at ran)
                (skip_round-settings ev s ∙ calm.settings ∙ p.same, skip_round-IsUp ev s up) in
            record { same = same'; held = held; fitted = fitted; up = up' }
        | inr waited ↦
            let (s', run, e) = bind-ok (stdin_step c ev s) _ (rw waited at ran) in
            let u = stdin_step-Untouched c ev s run in
            let s1 = interrupted before_start ev s' in
            let u1 = interrupted-Untouched before_start ev s' in
            let up1 = interrupted-IsUp before_start ev s' (stdin_step-IsUp c ev s run up) in
            let s2 = (rest_of_round lib ev (query, s1)).1 in
            let up2 = rest_of_round-IsUp lib ev query s1 up1 in
            let u3 = interrupted-Untouched before_test ev s2 in
            let Same : Bool × List ℕ × Server W → Type 0 =
              λ x. (x.2.settings ≡ settings) × IsUp x.2 in
            let (same', up') = subst (Holds Same) e (
              u3.settings
                  ∙ rest_of_round-settings lib ev query s1
                  ∙ u1.settings
                  ∙ u.settings
                  ∙ calm.settings
                  ∙ p.same,
              interrupted-IsUp before_test ev s2 up2,
            ) in
            record { same = same'; held = held; fitted = fitted; up = up' }
      ]

  -- with tables if it runs, where the round has waited or the server had tables before.
  pub round-IsRunningWell :
      (ev : Events) (query : List ℕ) (s : Server W) (r : Bool × List ℕ × Server W)
      → round c lib ev (query, s) ≡ ok r
      → IsPrepared d settings s
      → (ltb_ℤ ev.ret (pos 0) ≡ true → IsRunningWell lib s)
      → IsRunningWell lib r.2
  unfolding round skip_round skip_service
  round-IsRunningWell ev query s0 r ran p well =
      let s = interrupted before_input ev s0 in
      let Well : Bool × List ℕ × Server W → Type 0 = λ x. IsRunningWell lib x.2 in
      elim (Bool-cases (ltb_ℤ ev.ret (pos 0))) [
        | inl failed ↦
            let w = interrupted-IsRunningWell lib before_input ev s0 (well failed) in
            let s1 = interrupted before_start ev s in
            let w1 = interrupted-IsRunningWell lib before_start ev s w in
            let s2 = interrupted before_stop ev s1 in
            let w2 = interrupted-IsRunningWell lib before_stop ev s1 w1 in
            let s3 = interrupted before_service ev s2 in
            let w3 = interrupted-IsRunningWell lib before_service ev s2 w2 in
            subst (Holds Well) (rw failed at ran)
              (interrupted-IsRunningWell lib before_test ev s3 w3)
        | inr waited ↦
            let (s', run, e) = bind-ok (stdin_step c ev s) _ (rw waited at ran) in
            let h = interrupted-IsHeld lib before_input ev s0 p.held in
            let h' = Untouched-IsHeld lib (stdin_step-Untouched c ev s run) h in
            let s1 = interrupted before_start ev s' in
            let h1 = interrupted-IsHeld lib before_start ev s' h' in
            let w2 = rest_of_round-IsRunningWell lib d.tables ev query s1 h1 in
            subst (Holds Well) e
              (interrupted-IsRunningWell lib before_test ev (rest_of_round lib ev (query, s1)).1 w2)
      ]
