-- ===== src/Plugins/Tiers.antt =====
-- A plugin from outside the program (src/mmrelay/plugins/base_plugin.py) is configured by its own
-- tier's section.
use meshtastic_matrix_relay.Base.{
  ◌≡◌, refl, sym, ap, ◌∙◌, subst, arith, ℕ, ◌≤◌, ℤ, pos, negsuc, String, Bool, false, Option, none,
  some, List, ◌∷◌,
}
use meshtastic_matrix_relay.Py.{
  Value, null, bool, int, float, str, list, tuple, set, dict, obj, Items, nil, Fields, lookup,
  or_else, truthy, get, as_dict, end,
}
use meshtastic_matrix_relay.Plugins.Settings.{
  Tier, core, community, custom, is_core_tier, Declared, Resolution, initial_tier, plugin_section,
  first_named, take_config, adopt_configured, others, resolve_config, global_mention,
  global_sections, either, as_channels, mapped_channels, Settings, settings, init_plugin,
  at_least_minimum, clamped, delay_of, as_number, configured_delay, response_delay, mention_or,
  get_require_bot_mention,
}

-- A plugin whose source lies in the directory of a tier.
abbrev pub located_in : String → Tier → Declared
located_in name t = record { plugin_name = name; is_core = false; located = some t }

-- What the section of a plugin's tier makes of it.
record IsOwn (t : Tier) (d : Fields) (r : Resolution) : Type 0 where
  config : r.config ≡ d
  expected : r.expected ≡ some t
  plugin_type : r.plugin_type ≡ some t

take_config-IsOwn :
    (name : String) (t : Tier) (d : Fields)
    → is_core_tier t ≡ false
    → IsOwn t d (
        take_config
          (some (t, dict d))
          (adopt_configured false (some (t, dict d)) (initial_tier (located_in name t))))
take_config-IsOwn name core d h = cc
take_config-IsOwn name community d h = record { config = refl; expected = refl; plugin_type = refl }
take_config-IsOwn name custom d h = record { config = refl; expected = refl; plugin_type = refl }

first_named-first :
    (config : Fields) (name : String) (t : Tier) (ts : List Tier) (v : Value)
    → lookup name (plugin_section config t) ≡ some v
    → first_named config name (t ∷ ts) ≡ some (t, v)
unfolding first_named
first_named-first config name t ts v h = rw h refl

resolve_config-IsOwn :
    (config : Fields) (name : String) (t : Tier) (d : Fields)
    → is_core_tier t ≡ false
    → lookup name (plugin_section config t) ≡ some (dict d)
    → IsOwn t d (resolve_config config (located_in name t))
unfolding resolve_config
resolve_config-IsOwn config name t d h e =
    subst
      (λ o. IsOwn t d (take_config o (adopt_configured false o (initial_tier (located_in name t)))))
      (sym (first_named-first config name t (others t) (dict d) e)) (take_config-IsOwn name t d h)

at_least_minimum-minimum : (z : ℤ) → 2000 ≤ at_least_minimum z
at_least_minimum-minimum (pos n) = ground arith
at_least_minimum-minimum (negsuc n) = ground arith

clamped-minimum : (o : Option ℤ) (n : ℕ) → clamped o ≡ some n → 2000 ≤ n
clamped-minimum none n h = cc
clamped-minimum (some z) n h = ground (arith, h, at_least_minimum-minimum z)

delay_of-minimum : (v : Value) (n : ℕ) → delay_of v ≡ some n → 2000 ≤ n
delay_of-minimum null n h = ground (arith, h)
delay_of-minimum (bool b) n h = clamped-minimum (as_number (bool b)) n h
delay_of-minimum (int z) n h = clamped-minimum (as_number (int z)) n h
delay_of-minimum (float z) n h = clamped-minimum (as_number (float z)) n h
delay_of-minimum (str s) n h = clamped-minimum (as_number (str s)) n h
delay_of-minimum (list xs) n h = clamped-minimum (as_number (list xs)) n h
delay_of-minimum (tuple xs) n h = clamped-minimum (as_number (tuple xs)) n h
delay_of-minimum (set xs) n h = clamped-minimum (as_number (set xs)) n h
delay_of-minimum (dict d) n h = clamped-minimum (as_number (dict d)) n h
delay_of-minimum (obj c d) n h = clamped-minimum (as_number (obj c d)) n h

response_delay-minimum : (config : Fields) (n : ℕ) → response_delay config ≡ some n → 2000 ≤ n
unfolding response_delay
response_delay-minimum config n h =
    delay_of-minimum (configured_delay (or_else (as_dict (get config "meshtastic" (dict end))) end))
      n h

-- What a plugin's settings are made of.
record IsMade (config : Fields) (r : Resolution) (s : Settings) : Type 0 where
  resolution : s.resolution ≡ r
  mention :
      s.global_require_bot_mention
      ≡ global_mention config (global_sections (either r.expected r.resolved))
  delay : response_delay config ≡ some s.delay

settings-IsMade :
    (config : Fields) (r : Resolution) (m : Option Items) (o : Option ℕ) (s : Settings)
    → response_delay config ≡ o
    → settings config r m o ≡ some s
    → IsMade config r s
settings-IsMade config r none o s e h = cc
settings-IsMade config r (some m) none s e h = cc
settings-IsMade config r (some m) (some n) s e h =
    let same : made ≡ s = cc in
    subst (IsMade config r) same (record { resolution = refl; mention = refl; delay = e })
  where
    made : Settings
    made = record {
      resolution = r;
      global_require_bot_mention =
          global_mention config (global_sections (either r.expected r.resolved));
      mapped = m;
      channels = as_channels (get r.config "channels" (list m));
      delay = n;
    }

mention_lem :
    (config d : Fields) (t : Tier)
    → is_core_tier t ≡ false
    → mention_or
        (lookup "require_bot_mention" d)
        (global_mention config (global_sections (some t)))
        false
      ≡ truthy (
          or_else (lookup "require_bot_mention" d) (
            or_else
              (lookup "require_bot_mention" (plugin_section config t))
              (or_else (lookup "require_bot_mention" (plugin_section config core)) (bool false))))
unfolding global_mention
mention_lem config d core h = cc
mention_lem config d community h = ground arith
mention_lem config d custom h = ground arith

-- A plugin whose source lies in the directory of the community or the custom tier, and which the
-- section of that tier configures by a mapping, has that mapping for its configuration and that tier
-- for its type, whatever other sections name it. It requires the mention of the bot as the first of
-- these says that has the key: its own configuration, its tier's section, the core section; else it
-- does not. Its delay between responses is no less than the minimum of two seconds. This is stated of
-- every construction that does not raise.
pub init_plugin-tier :
    (config : Fields) (name : String) (t : Tier) (d : Fields) (s : Settings)
    → is_core_tier t ≡ false
    → lookup name (plugin_section config t) ≡ some (dict d)
    → init_plugin (some config) (located_in name t) ≡ some s
    → (s.resolution.config ≡ d)
      × (s.resolution.plugin_type ≡ some t)
      × (get_require_bot_mention s (located_in name t)
          ≡ truthy (
              or_else (lookup "require_bot_mention" d) (
                or_else (lookup "require_bot_mention" (plugin_section config t)) (
                  or_else
                    (lookup "require_bot_mention" (plugin_section config core))
                    (bool false)))))
      × (2000 ≤ s.delay)
unfolding init_plugin get_require_bot_mention
init_plugin-tier config name t d s h e i =
    let own = resolve_config-IsOwn config name t d h e in
    let made =
      settings-IsMade config (resolve_config config (located_in name t))
        (mapped_channels (get config "matrix_rooms" (list nil))) (response_delay config) s refl i in
    let same = ap (λ (r : Resolution). r.config) made.resolution ∙ own.config in
    (
      same,
      ap (λ (r : Resolution). r.plugin_type) made.resolution ∙ own.plugin_type,
      ap (λ (x : Fields × Option Bool). mention_or (lookup "require_bot_mention" x.0) x.1 false)
            {x = (s.resolution.config, s.global_require_bot_mention)}
            {y = (d, global_mention config (global_sections (some t)))}
            (λ j. (
              same j,
              (made.mention
                    ∙ ap
                        (λ o. global_mention config (
                          global_sections
                            (either o (resolve_config config (located_in name t)).resolved)))
                        own.expected)
                  j,
            ))
          ∙ mention_lem config d t h,
      response_delay-minimum config s.delay made.delay,
    )
