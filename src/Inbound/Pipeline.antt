-- ===== src/Inbound/Pipeline.antt =====
-- The plugins are asked in order, up to the first that handles the packet.
use meshtastic_matrix_relay.Base.{
  ℕ, suc, ◌≡◌, refl, ap, String, Bool, true, false, Option, List, [], ◌∷◌, ◌++◌, length, ◌⊎◌, inl,
  inr,
}
use meshtastic_matrix_relay.Py.{Fields}
use meshtastic_matrix_relay.Inbound.State.{Outcome}
use meshtastic_matrix_relay.Inbound.Plugins.{resolve_plugin_result, run_meshtastic_plugins}

-- What the outcome of a plugin's handler means: only a handler that answers yes, at once or in time,
-- or one that is still at it when its time is up, has the packet; one that raises or cannot be
-- submitted has not.
pub data Has : Outcome → Type 0 where
  answered : Has (Outcome.answered true)
  awaited : Has (Outcome.awaited true)
  late : Has Outcome.timed_out

resolve-Has : (o : Outcome) → resolve_plugin_result o ≡ true → Has o
unfolding resolve_plugin_result
resolve-Has (Outcome.answered true) h = answered
resolve-Has (Outcome.answered false) h = cc
resolve-Has (Outcome.awaited true) h = awaited
resolve-Has (Outcome.awaited false) h = cc
resolve-Has Outcome.not_submitted h = cc
resolve-Has Outcome.timed_out h = late
resolve-Has Outcome.failed h = cc

Has-resolve : (o : Outcome) → resolve_plugin_result o ≡ false → ¬ Has o
unfolding resolve_plugin_result
Has-resolve _ h answered = cc
Has-resolve _ h awaited = cc
Has-resolve _ h late = cc

abbrev pub Plugin : Type 0
Plugin = Fields → Option String → Option String → Option String → Outcome

module _ (packet : Fields) (message longname meshnet : Option String) where
  abbrev handles : Plugin → Bool
  handles plugin = resolve_plugin_result (plugin packet message longname meshnet)

  abbrev pub HasPacket : Plugin → Type 0
  HasPacket plugin = Has (plugin packet message longname meshnet)

  abbrev pub AllPass : List Plugin → Type 0
  AllPass [] = Unit
  AllPass (plugin ∷ plugins) = (¬ HasPacket plugin) × AllPass plugins

  -- The plugins before the one that handles the packet, that plugin, and the rest.
  pub record Taken (plugins : List Plugin) (called : ℕ) : Type 0 where
    pub before : List Plugin
    pub plugin : Plugin
    pub rest : List Plugin
    pub split : plugins ≡ before ++ plugin ∷ rest
    pub passed : AllPass before
    pub handled : HasPacket plugin
    pub counted : called ≡ suc (length before)

  found_later :
      (p : Plugin) (plugins : List Plugin) (called : ℕ)
      → handles p ≡ false
      → Taken plugins called
      → Taken (p ∷ plugins) (suc called)
  found_later p plugins called h t = record {
    before = p ∷ t.before;
    plugin = t.plugin;
    rest = t.rest;
    split = ap (λ l. p ∷ l) t.split;
    passed = (Has-resolve (p packet message longname meshnet) h, t.passed);
    handled = t.handled;
    counted = ap suc t.counted;
  }

  abbrev pub Ran : List Plugin → Bool × ℕ → Type 0
  Ran plugins ran =
      ((ran.0 ≡ true) × Taken plugins ran.1)
      ⊎ ((ran.0 ≡ false) × AllPass plugins × (ran.1 ≡ length plugins))

  abbrev ran_with : Bool → Bool × ℕ → Bool × ℕ
  ran_with b ran = elim b [ true ↦ (true, 1) | false ↦ (ran.0, suc ran.1) ]

  run_step :
      (p : Plugin) (plugins : List Plugin) (ran : Bool × ℕ) (b : Bool)
      → handles p ≡ b
      → Ran plugins ran
      → Ran (p ∷ plugins) (ran_with b ran)
  run_step p plugins ran true h _ = inl (
    refl,
    record {
      before = [];
      plugin = p;
      rest = plugins;
      split = refl;
      passed = tt;
      handled = resolve-Has (p packet message longname meshnet) h;
      counted = refl;
    },
  )
  run_step p plugins ran false h (inl (found, t)) = inl (found, found_later p plugins ran.1 h t)
  run_step p plugins ran false h (inr (found, passed, counted)) =
      inr (found, (Has-resolve (p packet message longname meshnet) h, passed), ap suc counted)

  -- Either a plugin has the packet, and it and those before it, which have it not, are the ones that
  -- were called; or all plugins were called and none has it. A plugin has the packet if its handler
  -- answers yes, at once or in time, or does not answer in time; not if it answers no, raises or cannot
  -- be submitted.
  pub run-Taken :
      (plugins : List Plugin)
      → Ran plugins (run_meshtastic_plugins plugins packet message longname meshnet)
  unfolding run_meshtastic_plugins
  run-Taken [] = inr (refl, tt, refl)
  run-Taken (p ∷ plugins) =
      let ran = run_meshtastic_plugins plugins packet message longname meshnet in
      run_step p plugins ran (handles p) refl (run-Taken plugins)
