-- ===== src/Web/Bots/Creating.antt =====
-- A channel that is created on the page of the settings, against the API's check of its configuration.
mod Tests
use social_monitor.Prelude.{
  ◌≡◌, ◌⊎◌, inl, inr, sym, Bool-cases, refl, nonempty, truthy, Bool, true, false, not, ◌&&◌, ◌||◌,
  List, [], ◌∷◌, ◌++◌, Option, some, arith, if◌then◌else◌,
}
use mathlib.Core.List.{append-nil}
use social_monitor.Core.{Result, ok}
use social_monitor.Notifications.Channels.{CreateChannel, validate_config}
use social_monitor.Web.Bots.{
  BotKind, telegram_bot, qq_bot, BotForm, BotSection, BotCall, post_channel, bot_config,
  create_body, is_filled, press_create, channel_type,
}

accepted :
    (kind : BotKind) (form : BotForm)
    → is_filled kind form ≡ true
    → validate_config (channel_type kind) (bot_config kind form) ≡ ok tt
unfolding validate_config
accepted telegram_bot form h = ground arith
accepted qq_bot form h = ground arith

abbrev pub posts : Bool → CreateChannel → List BotCall
posts true body = post_channel body ∷ []
posts false body = []

-- Pressing the button that creates a channel, in a section that is not busy, posts the channel if its
-- inputs are filled in and nothing otherwise; and with inputs that are filled in the posted
-- configuration passes the API's check of channel configurations.
pub create_accepted :
    (kind : BotKind) (s : BotSection)
    → s.busy ≡ false
    → ((press_create kind s).calls
        ≡ s.calls ++ posts (is_filled kind s.form) (create_body kind s.form))
      × ((is_filled kind s.form ≡ false)
          ⊎ (validate_config (create_body kind s.form).type (create_body kind s.form).config
              ≡ ok tt))
unfolding press_create
create_accepted kind s h = elim (Bool-cases (is_filled kind s.form)) [
  | inl e ↦ rw (e, h) (refl, inr (accepted kind s.form e))
  | inr e ↦ rw e (sym (append-nil s.calls), inl refl)
]
