-- ===== src/Legacy/Loop/ServingTests.antt =====
-- A run of json-modbus-server.c over a sample library that makes tables of the size asked for: a
-- round without input, an update, and the end of the input.
use mathlib.Core.Option.{some-injective}
use modbus_server.Prelude.{
  ℕ, ◌+◌, ◌≡◌, ◌≢◌, refl, sym, subst, true, false, [], ◌∷◌, none, some, arith, ap, replicate,
  length-replicate,
}
use modbus_server.Prelude.Int.{ℤ, pos, pos_part, negsuc, ◌+ℤ◌}
use modbus_server.Clib.Fault.{ok}
use modbus_server.Clib.Text.{codes, until_nul}
use modbus_server.Config.{ModbusConfig, string_item, int_item, parse_reg_config, object_range}
use modbus_server.Foreign.Cjson.{Cjson}
use modbus_server.Foreign.Modbus.{Modbus, eagain}
use modbus_server.Machine.{Machine, new_tcp, tcp_listen, new_rtu, connect}
use modbus_server.Legacy.{Settings, initial_settings}
use modbus_server.Legacy.Loading.{load_config, load_mode, load_serial, load_ranges}
use modbus_server.Legacy.Transport.Starting.{
  start_tcp, listen_tcp, start_rtu, open_rtu, connect_rtu, start_mapping, start_machine,
}
use modbus_server.Legacy.Loop.{Events, Finish, main_server, stdin_step}
use modbus_server.Legacy.Loop.Last.{IsHandled}
use modbus_server.Legacy.Loop.Held.{StartsWell}
use modbus_server.Legacy.Loop.Faultless.{IsFitted, IsDocumented, IsFit}
use modbus_server.Legacy.Loop.Serving.{IsAddressed, main_server-IsFaultless}
use modbus_server.Samples.{
  Json, text, number, field, documents, documents_texts, object, end, counting, four_registers,
  member, find_field,
}

-- The settings and the update in one document.
abbrev document : Json
document = object (
    field (codes "mode") (text (codes "tcp")) (
      field (codes "holding_registers")
        (object (
          field (codes "start_address") (number (pos 40000))
            (field (codes "count") (number (pos 4)) end)))
        (field (codes "type") (text (codes "holding")) (
          field (codes "address") (number (pos 40001)) (
            field (codes "datatype") (text (codes "uint32"))
              (field (codes "value") (number (pos 70000)) end))))))

abbrev sample : Cjson Json ℕ
sample = documents document

abbrev sizing : Modbus ℕ
sizing = record counting {
  mapping_new = λ _ _ _ _ _ nb _ _ w. (
    elim nb [
      | pos n ↦ some (record four_registers { nb_registers = pos n; tab_registers = replicate n 7 })
      | negsuc _ ↦ none
    ],
    w,
  );
}

sizing-fits :
    (nb : ℤ) (w : ℕ)
    → IsFitted nb
        (sizing.mapping_new (pos 0) (pos 0) (pos 0) (pos 0) (pos 0) nb (pos 0) (pos 0) w).0
sizing-fits (pos n) w = (ap pos (sym (length-replicate n 7)), ap pos (sym (length-replicate n 7)))
sizing-fits (negsuc n) w = tt

sizing-IsDocumented : IsDocumented sizing
sizing-IsDocumented = record {
  make = λ a b d e g nb i j w. sizing-fits nb w;
  answer = λ nb ctx query rc tables w fitted. fitted;
  tables = λ ctx query rc tables w there. there;
  listening = λ ctx s w. refl;
}

sample_settings :
    (settings : Settings) × (load_config sample (some (codes "{...}")) initial_settings
      ≡ ok (pos 0, settings))
unfolding load_config load_mode load_serial load_ranges string_item int_item parse_reg_config
    until_nul member find_field
sample_settings = (_, refl)

sample-IsAddressed : IsAddressed sample_settings.0 40000 4
unfolding sample_settings load_config load_mode load_serial load_ranges string_item int_item
    parse_reg_config until_nul member find_field object_range
sample-IsAddressed = record { starts = refl; counts = refl; fits_int = omega arith }

sizing_starts :
    (config : ModbusConfig) (n : ℕ) (m : Machine ℕ)
    → config.nb_holding_regs ≡ pos n
    → (start_machine sizing config m).0 ≡ true
unfolding start_machine start_tcp listen_tcp start_rtu open_rtu connect_rtu start_mapping new_tcp
    tcp_listen new_rtu connect
sizing_starts config n m e = ground arith

sample_StartsWell : StartsWell sizing sample_settings.0.config
sample_StartsWell m closed = sizing_starts sample_settings.0.config 4 m sample-IsAddressed.counts

-- Nothing on the input.
abbrev tick : Events
tick = record {
  ret = pos 0;
  errno = eagain;
  is_set = λ _. false;
  line = none;
  signals = λ _. false;
}

abbrev told : Events
told = record tick { ret = pos 1; is_set = λ _. true; line = some (codes "{...}") }

abbrev hang_up : Events
hang_up = record told { line = none }

tick-IsHandled : IsHandled ℕ sample tick
unfolding stdin_step
tick-IsHandled s = (s, refl)

not_next : pos 40002 ≢ pos 40004
not_next e = absurd (omega (arith, ap pos_part e))

told-IsFit : IsFit sample (40000 + 4) told
unfolding member find_field ◌+ℤ◌
told-IsFit line same o =
    let parsed : some document ≡ some o.root =
      subst (λ t. sample.parse t ≡ some o.root) (sym (some-injective _ _ same)) o.parsed in
    let addr_at : some (number (pos 40001)) ≡ some o.addr =
      subst (λ r. member r (codes "address") ≡ some o.addr) (sym (some-injective _ _ parsed))
        o.addr_at in
    let next : pos 40002 ≡ pos 40004 =
      subst (λ i. sample.valueint i +ℤ pos 1 ≡ pos 40004) (sym (some-injective _ _ addr_at))
        o.address in
    not_next next

hang_up-IsFit : IsFit sample (40000 + 4) hang_up
hang_up-IsFit line same o = absurd (cc)

main_server-IsFaultless_example :
    (r : Finish ℕ) × (main_server sample sizing
        (some (codes "{...}"))
        []
        (tick ∷ told ∷ hang_up ∷ [])
        20
      ≡ ok r)
main_server-IsFaultless_example =
    main_server-IsFaultless sample sizing-IsDocumented sample_settings.0 sample-IsAddressed
      (documents_texts document) (some (codes "{...}")) [] tick (told ∷ hang_up ∷ []) 20
      sample_settings.1 sample_StartsWell refl tick-IsHandled (told-IsFit, (hang_up-IsFit, tt))
