-- ===== src/Messages/Keeps.antt =====
-- `MessagesService.create` moves up in every order in which its insertions, its jobs and the calls
-- of GLPI do.
use Prim.Native.String.{String}
use munichat.Prelude.{ℕ, Option, none, some, List}
use munichat.Text.{Text}
use munichat.Store.{Prisma, Message, User, NewMessage}
use munichat.Server.{World, LinkPreviewJob, GlpiRequest, Reply, pure}
use munichat.Server.Keeps.{Preorder, Keeps, Keeps-pure, Keeps-throw, keeps_rules}
use munichat.Glpi.{CreateTicketInput, CreateTicketResult}
use munichat.Glpi.Keeps.{networked, create_ticket-Keeps}
use munichat.Messages.Patterns.{ticket_description}
use munichat.Messages.Service.{
  CreateMessageInput, error, create_row, create, create_plain, create_ticket_message, try_ticket,
  found_user, after_glpi, ticket_row, preview_job, check_attachments,
}

module _ (db : Prisma) (o : Preorder db.State)
    (free : (w : World db.State) (requests : List GlpiRequest) (replies : List Reply)
        (token : Option Text)
      → o.Le w (networked w requests replies token))
    (queued : (w : World db.State) (jobs : List LinkPreviewJob) → o.Le w (record w { jobs = jobs }))
    (create_row-Keeps : (n : NewMessage) → Keeps o (create_row db n)) where
  try_ticket-Keeps : (input : CreateTicketInput) → Keeps o (try_ticket db input)
  unfolding try_ticket
  try_ticket-Keeps input = record { at = (create_ticket-Keeps o free input).at }

  found_user-Keeps : (found : Option User) → Keeps o (found_user db found)
  unfolding found_user
  found_user-Keeps none = Keeps-throw o _
  found_user-Keeps (some user) = Keeps-pure o _

  after_glpi-Keeps :
      (channel author description : Text) (ticket : Option CreateTicketResult)
      → Keeps o (after_glpi db channel author description ticket)
  after_glpi-Keeps channel author description none = Keeps-pure o _
  after_glpi-Keeps channel author description (some ticket) = ticket_row-Keeps ticket.glpi_ticket_id
    where
      ticket_row-Keeps :
          (id : Option ℕ)
          → Keeps o
              (ticket_row db channel author description (record ticket { glpi_ticket_id = id }))
      ticket_row-Keeps none = Keeps-throw o _
      ticket_row-Keeps (some id) = search (keeps_rules, create_row-Keeps)

  create_ticket_message-Keeps :
      (channel author description : Text)
      → Keeps o (create_ticket_message db channel author description)
  unfolding create_ticket_message
  create_ticket_message-Keeps channel author description =
      search (keeps_rules, found_user-Keeps, try_ticket-Keeps, after_glpi-Keeps) depth 8

  preview_job-Keeps :
      (m : Message) (channel : Text) (url : Option Text) → Keeps o (preview_job db m channel url)
  preview_job-Keeps m channel none = record { at = λ w. o.le_refl w }
  preview_job-Keeps m channel (some url) = record { at = λ w. queued w _ }

  create_plain-Keeps : (input : CreateMessageInput) → Keeps o (create_plain db input)
  unfolding create_plain
  create_plain-Keeps input = search (keeps_rules, create_row-Keeps, preview_job-Keeps) depth 8

  pub create-Keeps :
      (real_object_size : Text → Option ℕ) (input : CreateMessageInput)
      → Keeps o (create db real_object_size input)
  unfolding create
  create-Keeps real_object_size input =
      dispatch (ticket_description input.content)
        (check_attachments real_object_size input.attachments)
    where
      dispatch :
          (ticket : Option Text) (problem : Option String)
          → Keeps o (elim ticket [
            | some description ↦
                create_ticket_message db input.channel_id input.author_id description
            | none ↦ elim problem [
              | some problem ↦ pure (error problem)
              | none ↦ create_plain db input
            ]
          ])
      dispatch (some description) problem = create_ticket_message-Keeps _ _ description
      dispatch none (some problem) = Keeps-pure o _
      dispatch none none = create_plain-Keeps input
