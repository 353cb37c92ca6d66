-- ===== src/Webhooks/Memory.antt =====
-- The tables of the webhooks in memory: they keep what the client documents, and the tests run on
-- them.
use mathlib.Core.Option
use munichat.Prelude.{ℕ, ◌≡◌, refl, sym, ap, ◌∙◌, true, false, none, some, if◌then◌else◌}
use munichat.Text.{Text, lit, text_eq}
use munichat.Text.Laws.{text_eq_refl}
use munichat.Store.{Channel, RmmAlertRef, NewRmmAlertRef, TicketRefRow, LinkPreviewRow}
use munichat.Store.Memory.{Memory, memory}
use munichat.Webhooks.Tables.{AlertTable, TicketTable, PreviewTable}

abbrev channel_ti : Channel
channel_ti = record { id = lit "c1"; name = lit "ti"; display_name = lit "TI" }

abbrev with_alert : NewRmmAlertRef → Memory → Memory
with_alert n s = record s {
  alerts = λ alert.
      if text_eq n.rmm_alert_id alert
      then some (record {
        id = lit "a";
        message_id = n.message_id;
        rmm_alert_id = n.rmm_alert_id;
        severity = n.severity;
        resolved = false;
      })
      else s.alerts alert;
}

abbrev without : Text → Memory → Memory
without id s = record s {
  alerts = λ alert.
      Option.map
        (λ (ref : RmmAlertRef). if text_eq ref.id id then record ref { resolved = true } else ref)
        (s.alerts alert);
}

abbrev with_status : Text → Text → ℕ → Memory → Memory
with_status id status now s = record s {
  tickets = λ ticket.
      Option.map
        (λ (ref : TicketRefRow).
          if text_eq ref.id id then record ref { status = status; updated_at = now } else ref)
        (s.tickets ticket);
}

abbrev with_preview : Text → LinkPreviewRow → (LinkPreviewRow → LinkPreviewRow) → Memory → Memory
with_preview message create update s = record s {
  previews = λ m.
      if text_eq message m
      then some (elim (s.previews message) as (λ _. LinkPreviewRow) [
        | none ↦ create
        | some row ↦ update row
      ])
      else s.previews m;
}

pub some-eq_inv {ℓ} : {A : Type ℓ} {a b : A} → some a ≡ some b → a ≡ b
some-eq_inv e = cc

abbrev pub alert_table : AlertTable memory
alert_table = record {
  find_by_name = λ s name. if text_eq name (lit "ti") then some channel_ti else none;
  find_by_username = λ s name. if text_eq name s.user.username then some s.user else none;
  find_alert = λ s alert. s.alerts alert;
  create_alert = λ n s. some (with_alert n s);
  resolve_alert = λ id s. some (without id s);
  create_alert_find = λ n s s' e. (
    lit "a",
    ap (λ (m : Memory). m.alerts n.rmm_alert_id) (sym (some-eq_inv e))
        ∙ rw (text_eq_refl n.rmm_alert_id) refl,
  );
  resolve_alert_find = λ s s' alert ref found e.
      ap (λ (m : Memory). m.alerts alert) (sym (some-eq_inv e))
      ∙ rw found (rw (text_eq_refl ref.id) refl);
  create_alert_channels = λ n s s' name e. refl;
  resolve_alert_channels = λ id s s' name e. refl;
  create_message_channels = λ n s s' r name e. refl;
}

abbrev pub ticket_table : TicketTable memory
ticket_table = record {
  find_ticket = λ s ticket. s.tickets ticket;
  set_status = λ id status now s. some (with_status id status now s);
  set_status_find = λ s s' ticket status now ref found e.
      ap (λ (m : Memory). m.tickets ticket) (sym (some-eq_inv e))
      ∙ rw found (rw (text_eq_refl ref.id) refl);
}

abbrev pub preview_table : PreviewTable memory
preview_table = record {
  find_preview = λ s message. s.previews message;
  upsert = λ message create update s. some (with_preview message create update s);
  upsert_find = λ message create update s s' e.
      ap (λ (m : Memory). m.previews message) (sym (some-eq_inv e))
      ∙ rw (text_eq_refl message) refl;
}
