-- ===== src/Server/Transport/Pump/Routes.antt =====
-- Which queue each stream and each datagram goes to, over a run of the pump of server/src/moq/mod.rs.
use webshooter.Base.{
  ℕ, ◌≡◌, refl, sym, ap, ◌∙◌, arith, Bool, true, false, List, [], ◌∷◌, ◌++◌, none, some,
  if◌then◌else◌, append-nil, append_assoc,
}
use webshooter.Base.Result.{ok, err}
use webshooter.Shared.Mux.{is_moq_byte}
use webshooter.Shared.WakeQueue.{Inner, new, push, close}
use webshooter.Server.Transport.Pump.{
  Queues, new_queues, PumpArm, accepted, accept_failed, datagram, receive_failed, starts_moq,
  if_same, route_stream, route_datagram, close_all, pump, streams_for, datagrams_for, fails,
}

push-open :
    {A : Type 0} (x : A) (q : Inner A)
    → q.closed ≡ false
    → ((push x q).0.items ≡ q.items ++ x ∷ []) × ((push x q).0.closed ≡ false)
unfolding push
push-open x q h = ground arith

behind :
    {A : Type 0} (before first rest : List A) {mid after : List A}
    → mid ≡ before ++ first
    → after ≡ mid ++ rest
    → after ≡ before ++ (first ++ rest)
behind before first rest m h = h ∙ ap (λ l. l ++ rest) m ∙ append_assoc before first rest

unchanged : {A : Type 0} (l : List A) → l ≡ l ++ []
unchanged l = sym (append-nil l)

module _ {Recv : Type 0} where
  pub record IsOpen (qs : Queues Recv) : Type 0 where
    pub moq_unistreams : qs.moq_unistreams.closed ≡ false
    pub moq_datagrams : qs.moq_datagrams.closed ≡ false
    pub app_unistreams : qs.app_unistreams.closed ≡ false
    pub app_datagrams : qs.app_datagrams.closed ≡ false

  pub record Routed (arms : List (PumpArm Recv)) (before after : Queues Recv) : Type 0 where
    pub moq_unistreams :
        after.moq_unistreams.items ≡ before.moq_unistreams.items ++ streams_for true arms
    pub app_unistreams :
        after.app_unistreams.items ≡ before.app_unistreams.items ++ streams_for false arms
    pub moq_datagrams :
        after.moq_datagrams.items ≡ before.moq_datagrams.items ++ datagrams_for true arms
    pub app_datagrams :
        after.app_datagrams.items ≡ before.app_datagrams.items ++ datagrams_for false arms
    pub all_closed :
        (after.moq_unistreams.closed ≡ fails arms)
        × (after.moq_datagrams.closed ≡ fails arms)
        × (after.app_unistreams.closed ≡ fails arms)
        × (after.app_datagrams.closed ≡ fails arms)

  -- What one arm that does not fail adds to each queue.
  abbrev Adds :
      List Recv → List Recv → List (List ℕ) → List (List ℕ) → Queues Recv → Queues Recv → Type 0
  Adds ms ns md nd qs after =
      (after.moq_unistreams.items ≡ qs.moq_unistreams.items ++ ms)
      × (after.app_unistreams.items ≡ qs.app_unistreams.items ++ ns)
      × (after.moq_datagrams.items ≡ qs.moq_datagrams.items ++ md)
      × (after.app_datagrams.items ≡ qs.app_datagrams.items ++ nd)
      × IsOpen after

  route_stream-Adds :
      (byte : ℕ) (r : Recv) (qs : Queues Recv)
      → IsOpen qs
      → Adds
          (if_same true (is_moq_byte byte) r)
          (if_same false (is_moq_byte byte) r)
          []
          []
          qs
          (route_stream byte r qs)
  unfolding route_stream
  route_stream-Adds byte r qs o = by_byte (is_moq_byte byte)
    where
      by_byte :
          (b : Bool)
          → Adds (if_same true b r) (if_same false b r) [] [] qs (
              if b
              then record qs { moq_unistreams = (push r qs.moq_unistreams).0 }
              else record qs { app_unistreams = (push r qs.app_unistreams).0 })
      by_byte true = (
        (push-open r qs.moq_unistreams o.moq_unistreams).0,
        sym (append-nil qs.app_unistreams.items),
        sym (append-nil qs.moq_datagrams.items),
        sym (append-nil qs.app_datagrams.items),
        record {
          moq_unistreams = (push-open r qs.moq_unistreams o.moq_unistreams).1;
          moq_datagrams = o.moq_datagrams;
          app_unistreams = o.app_unistreams;
          app_datagrams = o.app_datagrams;
        },
      )
      by_byte false = (
        sym (append-nil qs.moq_unistreams.items),
        (push-open r qs.app_unistreams o.app_unistreams).0,
        sym (append-nil qs.moq_datagrams.items),
        sym (append-nil qs.app_datagrams.items),
        record {
          moq_unistreams = o.moq_unistreams;
          moq_datagrams = o.moq_datagrams;
          app_unistreams = (push-open r qs.app_unistreams o.app_unistreams).1;
          app_datagrams = o.app_datagrams;
        },
      )

  route_datagram-Adds :
      (payload : List ℕ) (qs : Queues Recv)
      → IsOpen qs
      → Adds [] []
          (if_same true (starts_moq payload) payload)
          (if_same false (starts_moq payload) payload)
          qs
          (route_datagram payload qs)
  unfolding route_datagram
  route_datagram-Adds payload qs o = by_byte (starts_moq payload)
    where
      by_byte :
          (b : Bool)
          → Adds [] [] (if_same true b payload) (if_same false b payload) qs (
              if b
              then record qs { moq_datagrams = (push payload qs.moq_datagrams).0 }
              else record qs { app_datagrams = (push payload qs.app_datagrams).0 })
      by_byte true = (
        sym (append-nil qs.moq_unistreams.items),
        sym (append-nil qs.app_unistreams.items),
        (push-open payload qs.moq_datagrams o.moq_datagrams).0,
        sym (append-nil qs.app_datagrams.items),
        record {
          moq_unistreams = o.moq_unistreams;
          moq_datagrams = (push-open payload qs.moq_datagrams o.moq_datagrams).1;
          app_unistreams = o.app_unistreams;
          app_datagrams = o.app_datagrams;
        },
      )
      by_byte false = (
        sym (append-nil qs.moq_unistreams.items),
        sym (append-nil qs.app_unistreams.items),
        sym (append-nil qs.moq_datagrams.items),
        (push-open payload qs.app_datagrams o.app_datagrams).0,
        record {
          moq_unistreams = o.moq_unistreams;
          moq_datagrams = o.moq_datagrams;
          app_unistreams = o.app_unistreams;
          app_datagrams = (push-open payload qs.app_datagrams o.app_datagrams).1;
        },
      )

  closes_all :
      (qs : Queues Recv) (arms : List (PumpArm Recv))
      → Routed (accept_failed ∷ arms) qs (close_all qs)
        × Routed (receive_failed ∷ arms) qs (close_all qs)
  unfolding close_all close
  closes_all qs arms = (
    record {
      moq_unistreams = unchanged qs.moq_unistreams.items;
      app_unistreams = unchanged qs.app_unistreams.items;
      moq_datagrams = unchanged qs.moq_datagrams.items;
      app_datagrams = unchanged qs.app_datagrams.items;
      all_closed = (refl, refl, refl, refl);
    },
    record {
      moq_unistreams = unchanged qs.moq_unistreams.items;
      app_unistreams = unchanged qs.app_unistreams.items;
      moq_datagrams = unchanged qs.moq_datagrams.items;
      app_datagrams = unchanged qs.app_datagrams.items;
      all_closed = (refl, refl, refl, refl);
    },
  )

  pump-Routed :
      (arms : List (PumpArm Recv)) (qs : Queues Recv) → IsOpen qs → Routed arms qs (pump arms qs)
  unfolding pump
  pump-Routed [] qs o = record {
    moq_unistreams = unchanged qs.moq_unistreams.items;
    app_unistreams = unchanged qs.app_unistreams.items;
    moq_datagrams = unchanged qs.moq_datagrams.items;
    app_datagrams = unchanged qs.app_datagrams.items;
    all_closed = (o.moq_unistreams, o.moq_datagrams, o.app_unistreams, o.app_datagrams);
  }
  pump-Routed (accepted (some (ok (byte, r))) ∷ arms) qs o =
      let a = route_stream-Adds byte r qs o in
      let h = pump-Routed arms (route_stream byte r qs) a.4 in
      let moq = is_moq_byte byte in
      record {
        moq_unistreams =
            behind qs.moq_unistreams.items (if_same true moq r) (streams_for true arms) a.0
              h.moq_unistreams;
        app_unistreams =
            behind qs.app_unistreams.items (if_same false moq r) (streams_for false arms) a.1
              h.app_unistreams;
        moq_datagrams =
            behind qs.moq_datagrams.items [] (datagrams_for true arms) a.2 h.moq_datagrams;
        app_datagrams =
            behind qs.app_datagrams.items [] (datagrams_for false arms) a.3 h.app_datagrams;
        all_closed = h.all_closed;
      }
  pump-Routed (accepted (some (err e)) ∷ arms) qs o =
      let h = pump-Routed arms qs o in
      record {
        moq_unistreams = h.moq_unistreams;
        app_unistreams = h.app_unistreams;
        moq_datagrams = h.moq_datagrams;
        app_datagrams = h.app_datagrams;
        all_closed = h.all_closed;
      }
  pump-Routed (accepted none ∷ arms) qs o =
      let h = pump-Routed arms qs o in
      record {
        moq_unistreams = h.moq_unistreams;
        app_unistreams = h.app_unistreams;
        moq_datagrams = h.moq_datagrams;
        app_datagrams = h.app_datagrams;
        all_closed = h.all_closed;
      }
  pump-Routed (accept_failed ∷ arms) qs o = (closes_all qs arms).0
  pump-Routed (receive_failed ∷ arms) qs o = (closes_all qs arms).1
  pump-Routed (datagram payload ∷ arms) qs o =
      let a = route_datagram-Adds payload qs o in
      let h = pump-Routed arms (route_datagram payload qs) a.4 in
      let moq = starts_moq payload in
      record {
        moq_unistreams =
            behind qs.moq_unistreams.items [] (streams_for true arms) a.0 h.moq_unistreams;
        app_unistreams =
            behind qs.app_unistreams.items [] (streams_for false arms) a.1 h.app_unistreams;
        moq_datagrams =
            behind qs.moq_datagrams.items (if_same true moq payload) (datagrams_for true arms) a.2
              h.moq_datagrams;
        app_datagrams =
            behind qs.app_datagrams.items (if_same false moq payload) (datagrams_for false arms) a.3
              h.app_datagrams;
        all_closed = h.all_closed;
      }

  -- Whatever the connection brings: each queue holds exactly the streams or datagrams of its side
  -- that came before the connection failed, in order, and all four queues are closed exactly if it
  -- has failed.
  pub pump-routes :
      (arms : List (PumpArm Recv)) → Routed arms (new_queues {Recv = Recv}) (pump arms new_queues)
  unfolding new
  pump-routes arms = pump-Routed arms new_queues (record {
    moq_unistreams = refl;
    moq_datagrams = refl;
    app_unistreams = refl;
    app_datagrams = refl;
  })
