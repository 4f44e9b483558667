-- ===== src/Inbound/Delivery.antt =====
-- Each packet that is handled reaches the plugins once or a known conversation, and a text the rooms
-- of its channel.
use mathlib.Core.List.{map}
use meshtastic_matrix_relay.Base.{
  ◌≡◌, refl, ◌∙◌, String, Bool, true, Option, none, some, [], ◌∷◌, ◌||◌, str_eq, if◌then◌else◌,
  arith, ◌⊎◌, inl, inr, Bool-cases,
}
use meshtastic_matrix_relay.Py.{Value, append}
use meshtastic_matrix_relay.Inbound.State.{Facade, Interface, Original, Env, Relayed, Effect}
use meshtastic_matrix_relay.Inbound.Names.{text_in}
use meshtastic_matrix_relay.Inbound.Plugins.{run_meshtastic_plugins}
use meshtastic_matrix_relay.Inbound.Relays.{
  Received, is_relay, reply_id_in, relay_reaction, relay_reply, names, relay_text,
}
use meshtastic_matrix_relay.Inbound.Handler.{
  handle_text, handle_plain, handle_received, wants_reaction, wants_reply,
}
use meshtastic_matrix_relay.Inbound.Dispatch.{
  relays, offers, IsSaving, names-IsSaving, target_ids, channel_of, relays-channel,
  offers-channel_at,
}

module _ (env : Env) (i : Interface) where
  abbrev pub longname_in : Received → String
  longname_in r = (names env i r).0.0

  abbrev pub shortname_in : Received → String
  shortname_in r = (names env i r).0.1

  -- Whether a plugin handles a text.
  abbrev pub taken : Received → Bool
  taken r =
      (run_meshtastic_plugins env.plugins r.packet
        (some (
          append (env.matrix_prefix r.config (longname_in r) (shortname_in r) r.meshnet_name)
            (text_in r.decoded "text")))
        (some (longname_in r)) (some r.meshnet_name)).0

  text-relays :
      (f : Facade) (r : Received)
      → relays (handle_text env i f r) ≡ (
          if r.direct || taken r
          then []
          else map (relay_text env i r (longname_in r) (shortname_in r)) (target_ids f r))
  unfolding handle_text relays IsSaving append
  text-relays f r =
      (names-IsSaving env i r _).0
      ∙ ground (arith, relays-channel env i f r (longname_in r) (shortname_in r))

  text-offers : (f : Facade) (r : Received) → offers (handle_text env i f r) ≡ 1
  unfolding handle_text offers IsSaving append
  text-offers f r =
      (names-IsSaving env i r _).1
      ∙ ground
          (arith, offers-channel_at env i f r (longname_in r) (shortname_in r) (channel_of r) refl)

  plain-offers : (f : Facade) (r : Received) → offers (handle_plain env i f r) ≡ 1
  unfolding handle_plain offers
  plain-offers f r = ground (arith, text-offers f r)

  -- A packet that answers no known message is relayed to exactly the rooms that are mapped to its
  -- channel, in their order and once each, if it is a text that is to be relayed, that was not sent to
  -- the relay's node alone and that no plugin took; otherwise to none.
  pub plain-relays :
      (f : Facade) (r : Received)
      → relays (handle_plain env i f r) ≡ (
          if str_eq (text_in r.decoded "text") "" || r.direct || taken r
          then []
          else map (relay_text env i r (longname_in r) (shortname_in r)) (target_ids f r))
  unfolding handle_plain relays
  plain-relays f r = ground (arith, text-relays f r)

  -- An original that a packet answers, and the one relay that it comes to.
  pub record Answers (f : Facade) (r : Received) : Type 0 where
    pub original : Original
    pub found : env.message_map (reply_id_in r.decoded) ≡ some original
    pub relayed : is_relay r.action ≡ true
    pub sent : Relayed
    pub only : handle_received env i f r ≡ Effect.matrix_relay sent ∷ []
    pub room : sent.room_id ≡ Value.str (original.matrix_room_id)

  received_at :
      (f : Facade) (r : Received) (o : Option Original)
      → env.message_map (reply_id_in r.decoded) ≡ o
      → (offers (handle_received env i f r) ≡ 1) ⊎ Answers f r
  unfolding handle_received relay_reaction relay_reply append
  received_at f r none e = inl (ground (arith, plain-offers f r))
  received_at f r (some o) e = elim (Bool-cases (wants_reaction env i r)) [
    | inl a ↦ inr (record {
      original = o;
      found = e;
      relayed = ground arith;
      sent = relay_reaction env i r o;
      only = ground arith;
      room = refl;
    })
    | inr a ↦ elim (Bool-cases (wants_reply env i r)) [
      | inl b ↦ inr (record {
        original = o;
        found = e;
        relayed = ground arith;
        sent = relay_reply env i r o;
        only = ground arith;
        room = refl;
      })
      | inr b ↦ inl (ground (arith, plain-offers f r))
    ]
  ]

  -- Every packet that is handled either is offered to the plugins exactly once, or answers a message
  -- that the message map has and comes to exactly one relay, to the room of that message.
  pub received-dispatch :
      (f : Facade) (r : Received) → (offers (handle_received env i f r) ≡ 1) ⊎ Answers f r
  received-dispatch f r = received_at f r (env.message_map (reply_id_in r.decoded)) refl
