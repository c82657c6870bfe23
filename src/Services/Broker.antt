-- ===== src/Services/Broker.antt =====
-- RabbitMQ through amqp091-go. For each exchange that the program publishes to, the state lists the
-- publications that the client took: the calls of PublishWithContext that came back without an
-- error, in their order. The list is a record of the program's own calls. The channels are not in
-- confirm mode, so a publication in the list may still be lost before the broker has it, and one
-- whose call failed may have reached it; nothing is assumed of either.
use go_video.Prelude.{◌≡◌, List, [], ◌∷◌, ◌++◌, Act}
use go_video.Prelude.Text.{Text}
use go_video.Services.Sql.{Lens, Performs}

module _ {W S : Type 0} (view : W → S) where
  -- `send exchange routing_key payload` is PublishWithContext on an open channel.
  pub record Channel (Event : Type 0) (taken : Lens S (List (Text × Text × Event))) : Type 0 where
    pub send : Text → Text → Event → Act W (Unit {0})
    -- What the record of the calls is.
    pub taken_lem :
        (exchange key : Text) (e : Event) (w : W)
        → Performs view w
            (send exchange key e w)
            (λ _ s. s ≡ taken.set (taken.get (view w) ++ (exchange, key, e) ∷ []) (view w))
