-- ===== src/Inbound/Plugins.antt =====
-- src/mmrelay/meshtastic/plugins.py: `_run_meshtastic_plugins`.
use meshtastic_matrix_relay.Base.{ℕ, suc, String, Bool, true, false, Option, List, [], ◌∷◌}
use meshtastic_matrix_relay.Py.{Fields}
use meshtastic_matrix_relay.Inbound.State.{Outcome}

-- `_resolve_plugin_result`; a handler that fails is passed over.
unfoldable pub resolve_plugin_result : Outcome → Bool
resolve_plugin_result (Outcome.answered b) = b
resolve_plugin_result (Outcome.awaited b) = b
resolve_plugin_result Outcome.not_submitted = false
resolve_plugin_result Outcome.timed_out = true
resolve_plugin_result Outcome.failed = false

-- Whether a plugin handles the packet, and how many are called.
unfoldable pub run_meshtastic_plugins :
    List (Fields → Option String → Option String → Option String → Outcome)
    → Fields
    → Option String
    → Option String
    → Option String
    → Bool × ℕ
unfolding resolve_plugin_result
run_meshtastic_plugins [] packet message longname meshnet = (false, 0)
run_meshtastic_plugins (plugin ∷ plugins) packet message longname meshnet =
    let (found, called) = run_meshtastic_plugins plugins packet message longname meshnet in
    elim (resolve_plugin_result (plugin packet message longname meshnet)) [
      | true ↦ (true, 1)
      | false ↦ (found, suc called)
    ]
