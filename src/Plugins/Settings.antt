-- ===== src/Plugins/Settings.antt =====
-- base_plugin.py (src/mmrelay/plugins): how a plugin reads its configuration, and what it makes of
-- it. Sections and plugin types are named by their tier. A setting `meshtastic` is a mapping.
use meshtastic_matrix_relay.Base.{
  ℕ, ℤ, pos, negsuc, String, Bool, true, false, not, Option, none, some, List, [], ◌∷◌, ◌||◌,
  is_some, ltb, if◌then◌else◌,
}
use meshtastic_matrix_relay.Py.{
  Value, null, bool, int, float, str, list, tuple, set, dict, Items, nil, cons, Fields, end, field,
  lookup, or_else, get, as_dict, is_null, truthy, thousandths, eq_int,
}
use meshtastic_matrix_relay.Queue.State.{default_message_delay, minimum_message_delay}

pub data Tier : Type 0 where
  core community custom : Tier

abbrev pub section_name : Tier → String
section_name core = "plugins"
section_name community = "community-plugins"
section_name custom = "custom-plugins"

abbrev pub is_core_tier : Tier → Bool
is_core_tier core = true
is_core_tier _ = false

-- A plugin before it has read its configuration: its name, `is_core_plugin`, and the tier in whose
-- directory its source lies, where that can be told.
pub record Declared : Type 0 where
  pub plugin_name : String
  pub is_core : Bool
  pub located : Option Tier

pub record Resolution : Type 0 where
  pub config : Fields
  pub expected : Option Tier
  pub resolved : Option Tier
  pub plugin_type : Option Tier

abbrev pub others : Tier → List Tier
others core = community ∷ custom ∷ []
others community = core ∷ custom ∷ []
others custom = core ∷ community ∷ []

abbrev pub candidate_sections : Bool → Option Tier → List Tier
candidate_sections true _ = core ∷ []
candidate_sections false none = core ∷ community ∷ custom ∷ []
candidate_sections false (some t) = t ∷ others t

-- `config.get(section, {})`, where that is a dict
abbrev pub plugin_section : Fields → Tier → Fields
plugin_section config t = or_else (as_dict (get config (section_name t) (dict end))) end

-- The first section that names the plugin, and what it has under the name.
unfoldable pub first_named : Fields → String → List Tier → Option (Tier × Value)
first_named config name [] = none
first_named config name (t ∷ ts) =
    let rest = first_named config name ts in found t (lookup name (plugin_section config t)) rest
  where
    found : Tier → Option Value → Option (Tier × Value) → Option (Tier × Value)
    found t none rest = rest
    found t (some v) rest = some (t, v)

abbrev pub retyped : Tier → Option Tier → Option Tier
retyped t none = some t
retyped t (some core) = some t
retyped core (some u) = some u
retyped t (some _) = some t

-- A section that is found becomes the expected one, unless it is the core one and another is.
abbrev pub adopt : Tier → Resolution → Resolution
adopt t r =
    if not (is_some r.expected) || not (is_core_tier t)
    then record r { expected = some t; plugin_type = retyped t r.plugin_type }
    else r

abbrev pub adopt_configured : Bool → Option (Tier × Value) → Resolution → Resolution
adopt_configured false (some (t, _)) r = adopt t r
adopt_configured _ _ r = r

abbrev pub take_config : Option (Tier × Value) → Resolution → Resolution
take_config none r = r
take_config (some (t, v)) r =
    adopt t (record r { config = or_else (as_dict v) end; resolved = some t })

-- The tier before any section is read.
abbrev pub initial_tier : Declared → Resolution
initial_tier p = record {
  config = field "active" (bool false) end;
  expected = if p.is_core then some core else p.located;
  resolved = none;
  plugin_type = if p.is_core then some core else p.located;
}

unfoldable pub resolve_config : Fields → Declared → Resolution
resolve_config config p =
    let r = initial_tier p in
    let found = first_named config p.plugin_name (candidate_sections p.is_core r.expected) in
    take_config found (adopt_configured p.is_core found r)

abbrev pub either : Option Tier → Option Tier → Option Tier
either none o = o
either (some t) _ = some t

abbrev pub global_sections : Option Tier → List Tier
global_sections none = core ∷ []
global_sections (some core) = core ∷ []
global_sections (some t) = t ∷ core ∷ []

-- `_global_require_bot_mention`
unfoldable pub global_mention : Fields → List Tier → Option Bool
global_mention config [] = none
global_mention config (t ∷ ts) =
    let rest = global_mention config ts in
    asked (lookup "require_bot_mention" (plugin_section config t)) rest
  where
    asked : Option Value → Option Bool → Option Bool
    asked none rest = rest
    asked (some v) rest = some (truthy v)

-- The channels of the rooms, of which those that are no dicts are left out.
abbrev pub channel_before : Value → Items → Items
channel_before (dict room) rest = cons (get room "meshtastic_channel" null) rest
channel_before _ rest = rest

abbrev pub channels_of_items : Items → Items
channels_of_items nil = nil
channels_of_items (cons v vs) = channel_before v (channels_of_items vs)

abbrev pub channels_of_fields : Fields → Items
channels_of_fields end = nil
channels_of_fields (field _ v d) = channel_before v (channels_of_fields d)

-- `none` for the TypeError of a setting over which no loop goes
abbrev pub mapped_channels : Value → Option Items
mapped_channels (dict rooms) = some (channels_of_fields rooms)
mapped_channels (list rooms) = some (channels_of_items rooms)
mapped_channels (tuple rooms) = some (channels_of_items rooms)
mapped_channels (set rooms) = some (channels_of_items rooms)
mapped_channels (str _) = some nil
mapped_channels _ = none

abbrev pub as_channels : Value → Items
as_channels (list cs) = cs
as_channels v = cons v nil

abbrev pub at_least_minimum : ℤ → ℕ
at_least_minimum (pos n) = if ltb n minimum_message_delay then minimum_message_delay else n
at_least_minimum (negsuc n) = minimum_message_delay

-- A number in thousandths; a comparison of anything else with a float raises.
abbrev pub as_number : Value → Option ℤ
as_number (int z) = some (thousandths z)
as_number (float z) = some z
as_number (bool true) = some (pos 1000)
as_number (bool false) = some (pos 0)
as_number _ = none

abbrev pub clamped : Option ℤ → Option ℕ
clamped none = none
clamped (some z) = some (at_least_minimum z)

abbrev pub delay_of : Value → Option ℕ
delay_of null = some default_message_delay
delay_of v = clamped (as_number v)

abbrev pub configured_delay : Fields → Value
configured_delay meshtastic =
    or_else (lookup "message_delay" meshtastic)
      (or_else (lookup "plugin_response_delay" meshtastic) null)

unfoldable pub response_delay : Fields → Option ℕ
response_delay config =
    delay_of (configured_delay (or_else (as_dict (get config "meshtastic" (dict end))) end))

pub record Settings : Type 0 where
  pub resolution : Resolution
  pub global_require_bot_mention : Option Bool
  pub mapped : Items
  pub channels : Items
  pub delay : ℕ

abbrev pub settings : Fields → Resolution → Option Items → Option ℕ → Option Settings
settings config r (some mapped) (some delay) = some (record {
  resolution = r;
  global_require_bot_mention =
      global_mention config (global_sections (either r.expected r.resolved));
  mapped = mapped;
  channels = as_channels (get r.config "channels" (list mapped));
  delay = delay;
})
settings config r _ _ = none

-- `BasePlugin.__init__`, with or without a configuration; `none` where it raises
unfoldable pub init_plugin : Option Fields → Declared → Option Settings
init_plugin none p = some (record {
  resolution = record (initial_tier p) {
    expected = none;
    plugin_type = if p.is_core then some core else none;
  };
  global_require_bot_mention = none;
  mapped = nil;
  channels = nil;
  delay = default_message_delay;
})
init_plugin (some config) p =
    settings config (resolve_config config p)
      (mapped_channels (get config "matrix_rooms" (list nil))) (response_delay config)

abbrev pub equal_channel : Option ℤ → Value → Bool
equal_channel none v = is_null v
equal_channel (some z) v = eq_int v z

abbrev pub in_channels : Option ℤ → Items → Bool
in_channels channel nil = false
in_channels channel (cons v vs) = equal_channel channel v || in_channels channel vs

unfoldable pub is_channel_enabled : Settings → Option ℤ → Bool → Bool
is_channel_enabled s channel is_direct_message = is_direct_message || in_channels channel s.channels

-- DEFAULT_REQUIRE_BOT_MENTION is true.
abbrev pub mention_or : Option Value → Option Bool → Bool → Bool
mention_or (some v) _ _ = truthy v
mention_or none (some b) _ = b
mention_or none none is_core = is_core

unfoldable pub get_require_bot_mention : Settings → Declared → Bool
get_require_bot_mention s p =
    mention_or (lookup "require_bot_mention" s.resolution.config) s.global_require_bot_mention
      p.is_core
