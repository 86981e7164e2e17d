-- ===== src/Web/Bots/Creating/Tests.antt =====
-- A QQ channel that is created.
use social_monitor.Prelude.{◌≡◌, ◌⊎◌, refl, text, false, [], ◌++◌, none}
use social_monitor.Core.{ok}
use social_monitor.Notifications.Channels.{validate_config}
use social_monitor.Web.Bots.{BotSection, qq_bot, is_filled, create_body, press_create}
use social_monitor.Web.Bots.Creating.{posts, create_accepted}

abbrev section : BotSection
section = record {
  channels = [];
  form = record { name = text "QQ"; bot_token = []; chat_id = []; group_openid = text "g1" };
  busy = false;
  message = none;
  waiting = none;
  calls = [];
}

create_accepted_example :
    ((press_create qq_bot section).calls
      ≡ [] ++ posts (is_filled qq_bot section.form) (create_body qq_bot section.form))
    × ((is_filled qq_bot section.form ≡ false)
        ⊎ (validate_config
              (create_body qq_bot section.form).type
              (create_body qq_bot section.form).config
            ≡ ok tt))
create_accepted_example = create_accepted qq_bot section refl
