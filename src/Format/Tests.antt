-- ===== src/Format/Tests.antt =====
-- Runs of notifications/message-format.ts.
use social_monitor.Prelude.{◌-◌, ◌≡◌, refl, text, ◌++◌, some, length, take, arith, min}
use social_monitor.Format.{NotificationPayload, build_forward_text, forward_lines, newline}
use social_monitor.Format.Shape.{
  full_text, length-build_forward_text, build_forward_text_head, length-forward_lines,
}

abbrev note : NotificationPayload
note = record {
  source_label = text "TG群组";
  target_name = text "News";
  author = text "Ann";
  content = text "hello";
  url = some (text "u");
}

full_run :
    build_forward_text note 4096
    ≡ text "【TG群组】"
      ++ (newline
          ++ (text "【News】"
              ++ (newline
                  ++ (text "【Ann】" ++ (newline ++ (text "hello" ++ (newline ++ text "原文：u")))))))
unfolding build_forward_text
full_run = refl

length-build_forward_text_example :
    length (build_forward_text note 20) ≡ min (length (full_text note)) 20
length-build_forward_text_example = length-build_forward_text note 20 (omega arith)

build_forward_text_head_run :
    take (20 - 3) (build_forward_text note 20) ≡ take (20 - 3) (full_text note)
build_forward_text_head_run = build_forward_text_head note 20 (omega arith)

length-forward_lines_run : length (forward_lines note) ≡ 5
length-forward_lines_run = length-forward_lines note
