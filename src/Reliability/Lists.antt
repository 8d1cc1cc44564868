-- ===== src/Reliability/Lists.antt =====
-- What `retry` and `poll` of antarc-protocol/src/reliability.rs do to a list of sent packets.
use antarc.Base.Results.{>>=-eq-ok, ok-injective, ok, ◌>>=◌}
use antarc.Shared.{
  subst, sym, ◌<◌, lt→ltb, ap, not, ◌+◌, ◌≡◌, refl, Bool, true, false, List, [], ◌∷◌, ◌++◌, some,
  if◌then◌else◌, arith,
}
use antarc.Packets.Delivery.{duration_mod, duration_sum, Duration, ToSend, Sent, from_secs}
use antarc.Packets.Packet.{Packet}
use antarc.Packets.Reassembly.{pop-append}
use antarc.Reliability.{
  poll_fragments, Fragment, DataTransfer, ServiceReliability, ReliabilityHandler, polls, retry,
  remove_first, poll_handler,
}

abbrev pub no_items : {A : Type 0} → List A → Bool
no_items [] = true
no_items (x ∷ xs) = false

module _ {M : Type 0} where
  -- The packet that is sent again.
  abbrev pub again : Packet Sent M → Duration → Packet ToSend M
  again packet now = record {
    delivery = record {
      id = packet.delivery.id;
      meta = record { time = now; address = packet.delivery.meta.address };
    };
    sequence = packet.sequence;
    ack = packet.ack;
    message = packet.message;
  }

  -- A retry takes the packet that was sent last off its list; it is sent again, as it was and with
  -- the new time, if its time and the present add up to more than a thousand seconds.
  pub retry_late :
      (packets : List (Packet Sent M)) (packet : Packet Sent M) (now : Duration)
      → packet.delivery.meta.time + now < duration_mod
      → from_secs 1000 < packet.delivery.meta.time + now
      → retry (packets ++ (packet ∷ [])) now ≡ ok (packets, some (again packet now))
  unfolding retry duration_sum
  retry_late packets packet now fits late =
      rw (retry, pop-append packets packet, lt→ltb _ _ fits, lt→ltb _ _ late) refl

  -- The time to live of the first packet can be added to its time.
  abbrev pub FirstFits : List (Packet Sent M) → Type 0
  FirstFits [] = Unit {0}
  FirstFits (packet ∷ packets) = packet.delivery.meta.time + packet.delivery.ttl < duration_mod

  pub polls-no_items :
      (packets : List (Packet Sent M)) (now : Duration)
      → FirstFits packets
      → polls packets now ≡ ok (not (no_items packets))
  unfolding polls duration_sum
  polls-no_items [] now fits = refl
  polls-no_items (x ∷ packets) now fits = rw (lt→ltb _ _ fits) (ground arith)

module _ {S : Type 0} ⦃s : ServiceReliability S⦄ where
  -- A handler after a poll, given its lists of data transfers and of fragments.
  abbrev pub polled :
      ReliabilityHandler S
      → List (Packet Sent DataTransfer)
      → List (Packet Sent Fragment)
      → S
      → ReliabilityHandler S
  polled handler transfers fragments service = record {
    list_sent_reliable_data_transfer = remove_first transfers;
    list_sent_reliable_fragment = if no_items transfers then remove_first fragments else fragments;
    list_sent_reliable_heartbeat = handler.list_sent_reliable_heartbeat;
    service = service;
  }

  poll_fragments_lem :
      (handler : ReliabilityHandler S) (now : Duration)
      → FirstFits handler.list_sent_reliable_fragment
      → poll_fragments handler now
        ≡ ok (record handler {
          list_sent_reliable_fragment = remove_first handler.list_sent_reliable_fragment;
        })
  unfolding poll_fragments
  poll_fragments_lem handler now fits =
      rw (polls-no_items handler.list_sent_reliable_fragment now fits)
        (ap ok (by_cases handler.list_sent_reliable_fragment))
    where
      by_cases :
          (fragments : List (Packet Sent Fragment))
          → (if not (no_items fragments)
              then record handler { list_sent_reliable_fragment = remove_first fragments }
              else record handler { list_sent_reliable_fragment = fragments })
            ≡ record handler { list_sent_reliable_fragment = remove_first fragments }
      by_cases [] = refl
      by_cases (x ∷ fragments) = refl

  -- Where a time to live can be added to the time of the first data transfer and of the first
  -- fragment, and the poll of the service returns, a poll returns: it takes the first data transfer
  -- off, whether its time to live is over or not; only when none was sent it takes the first fragment
  -- off; and it leaves the heartbeats alone.
  pub poll_handler_lem :
      (handler : ReliabilityHandler S) (now : Duration) (service : S)
      → FirstFits handler.list_sent_reliable_data_transfer
      → FirstFits handler.list_sent_reliable_fragment
      → s.poll handler.service now ≡ ok service
      → poll_handler handler now
        ≡ ok (
            polled handler handler.list_sent_reliable_data_transfer
              handler.list_sent_reliable_fragment service)
  unfolding poll_handler
  poll_handler_lem handler now service fits fits' returns =
      rw (polls-no_items handler.list_sent_reliable_data_transfer now fits)
        (by_cases handler.list_sent_reliable_data_transfer)
    where
      by_cases :
          (transfers : List (Packet Sent DataTransfer))
          → ((if not (no_items transfers)
                then ok
                    (record handler { list_sent_reliable_data_transfer = remove_first transfers })
                else poll_fragments
                    (record handler { list_sent_reliable_data_transfer = transfers })
                    now)
              >>= λ handler'. s.poll handler'.service now >>= λ service'.
                  ok (record handler' { service = service' }))
            ≡ ok (polled handler transfers handler.list_sent_reliable_fragment service)
      by_cases [] =
          rw
            (
              poll_fragments_lem (record handler { list_sent_reliable_data_transfer = [] }) now
                  fits',
              returns,
            )
            refl
      by_cases (x ∷ transfers) = rw returns refl

  -- A poll that returns polls the service.
  pub poll_handler-service :
      (handler handler' : ReliabilityHandler S) (now : Duration)
      → poll_handler handler now ≡ ok handler'
      → s.poll handler.service now ≡ ok handler'.service
  unfolding poll_handler poll_fragments
  poll_handler-service handler handler' now returns =
      let (first_sent, e₁, rest₁) =
        >>=-eq-ok (polls handler.list_sent_reliable_data_transfer now) _ returns in
      let (handler₁, e₂, rest₂) = >>=-eq-ok _ _ rest₁ in
      let (service, e₃, rest₃) = >>=-eq-ok (s.poll handler₁.service now) _ rest₂ in
      let served : service ≡ handler'.service =
        ap (λ (x : ReliabilityHandler S). x.service) (ok-injective rest₃) in
      rw (sym served)
        (subst (λ x. s.poll x now ≡ ok service) (same_service first_sent handler₁ e₂) e₃)
    where
      fragments_service :
          (first_sent : Bool) (handler₁ : ReliabilityHandler S)
          → (if first_sent
              then record handler {
                list_sent_reliable_fragment = remove_first handler.list_sent_reliable_fragment;
              }
              else handler)
            ≡ handler₁
          → handler₁.service ≡ handler.service
      fragments_service true handler₁ same = ap (λ (x : ReliabilityHandler S). x.service) (sym same)
      fragments_service false handler₁ same =
          ap (λ (x : ReliabilityHandler S). x.service) (sym same)

      same_service :
          (first_sent : Bool) (handler₁ : ReliabilityHandler S)
          → (if first_sent
              then ok (record handler {
                list_sent_reliable_data_transfer =
                    remove_first handler.list_sent_reliable_data_transfer;
              })
              else poll_fragments handler now)
            ≡ ok handler₁
          → handler₁.service ≡ handler.service
      same_service true handler₁ same =
          ap (λ (x : ReliabilityHandler S). x.service) (sym (ok-injective same))
      same_service false handler₁ same =
          let (sent_first, e, rest) =
            >>=-eq-ok (polls handler.list_sent_reliable_fragment now) _ same in
          fragments_service sent_first handler₁ (ok-injective rest)
