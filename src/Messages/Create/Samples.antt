-- ===== src/Messages/Create/Samples.antt =====
-- A target, an input and two clients, for the tests of `create`.
use social_monitor.Prelude.{◌≡◌, refl, text, true, false, [], none}
use social_monitor.Core.{ok}
use social_monitor.Schema.{MonitorTarget, MessageSource, tg_group}
use social_monitor.Schema
use social_monitor.World.{World, Services, Job}
use social_monitor.Fixtures.{Script, scripted, io_of, accepting, world_of}
use social_monitor.Messages.Dto.{NormalizedMessage}
use social_monitor.Messages.Create.Store.{Store, message_store}

abbrev pub target : MonitorTarget
target = record {
  id = text "m1";
  type = tg_group;
  name = text "News";
  username = none;
  external_id = text "-100";
  enabled = true;
  last_message_at = none;
}

abbrev pub empty_store : Store
empty_store = record { target = target; message = λ s k. none; tasked = λ m c. false; next = 0 }

abbrev pub input : NormalizedMessage
input = record {
  source = Schema.MessageSource.telegram;
  external_id = text "-100:7";
  target_external_id = text "-100";
  target_type = tg_group;
  target_name = text "News";
  author = none;
  content = text "hello";
  url = none;
  published_at = 5000;
}

abbrev pub services : Services Store Script (Unit {0})
services = record { prisma = message_store; network = scripted; bull = accepting }

abbrev pub accepts : (job : Job) (r : Unit {0}) → (services.bull.add job r).0 ≡ ok tt
accepts job r = refl

abbrev pub start : World Store Script (Unit {0})
start = world_of empty_store (io_of [])
