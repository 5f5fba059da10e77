-- ===== src/Worker/Ports.antt =====
-- The ports of the tabs (ui/src/worker/matrixWorker.ts, lines 30 to 51 and 104 to 123): a port that cannot
-- be posted to is dropped, and with the last port what the worker holds is flushed. Which ports take
-- a message, and what the workspaces have to flush, are parameters.
use secure_collab_app.Prelude.{
  ℕ, suc, ◌+◌, ◌≡◌, refl, ◌∙◌, Bool, true, false, not, ◌&&◌, String, List, [], ◌∷◌, ◌++◌,
  if◌then◌else◌, eqb, filter, is_nil, any, map, All, arith, Bool-cases, inl, inr, append_assoc,
  append-nil, sym, ap, All-append,
}
use secure_collab_app.Exec.{Result}
use secure_collab_app.Worker.Protocol.{Event}
use secure_collab_app.Worker.State.{Worker}
use secure_collab_app.Worker.Persistence.{flush_persistence}
use secure_collab_app.Worker.Server.{disconnect}

-- `flushed` counts the flushes.
pub record Hub : Type 0 where
  pub worker : Worker
  pub ports : List ℕ
  pub delivered : List (ℕ × Event)
  pub flushed : ℕ

-- `clients.set` for a new port.
abbrev pub connect : ℕ → Hub → Hub
connect port h = if any (eqb port) h.ports then h else record h { ports = h.ports ++ port ∷ [] }

abbrev pub without_port : ℕ → List ℕ → List ℕ
without_port port ports = filter (λ p. not (eqb p port)) ports

-- No port is connected twice.
abbrev pub OncePort : List ℕ → Type 0
OncePort [] = Unit
OncePort (p ∷ ps) = All (λ q. eqb q p ≡ false) ps × OncePort ps

abbrev one_if : Bool → ℕ
one_if b = if b then 1 else 0

without_port-others : (p : ℕ) (ps : List ℕ) → All (λ q. eqb q p ≡ false) ps → without_port p ps ≡ ps
without_port-others p [] h = refl
without_port-others p (q ∷ ps) h = rw (h.0, without_port-others p ps h.1) refl

module _ (pending snapshot : ℕ → Result String) (takes : ℕ → Bool) where
  abbrev flush_if : Bool → Hub → Hub
  flush_if true h = record h {
    worker = flush_persistence pending snapshot h.worker;
    flushed = suc h.flushed;
  }
  flush_if false h = h

  abbrev pub drop_port : ℕ → Hub → Hub
  drop_port port h =
      flush_if (is_nil (without_port port h.ports))
        (record h { worker = disconnect port h.worker; ports = without_port port h.ports })

  abbrev post_if : Bool → ℕ → Event → Hub → Hub
  post_if true port e h = record h { delivered = h.delivered ++ (port, e) ∷ [] }
  post_if false port e h = drop_port port h

  abbrev pub post : ℕ → Event → Hub → Hub
  post port e h = post_if (takes port) port e h

  abbrev post_each : Event → List ℕ → Hub → Hub
  post_each e [] h = h
  post_each e (port ∷ ports) h = post_each e ports (post port e h)

  unfoldable pub broadcast : Event → Hub → Hub
  broadcast e h = post_each e h.ports h

  -- A port that does not take a message, after ports that do.
  without_port-middle :
      (p : ℕ) (kept ps : List ℕ)
      → All (λ q. takes q ≡ true) kept
      → takes p ≡ false
      → All (λ q. eqb q p ≡ false) ps
      → without_port p (kept ++ p ∷ ps) ≡ kept ++ ps
  without_port-middle p [] ps k t h =
      let same : eqb p p ≡ true = ground arith in rw same (without_port-others p ps h)
  without_port-middle p (q ∷ kept) ps k t h = elim (Bool-cases (eqb q p)) [
    | inl e ↦
        let same : q ≡ p = ground (arith, e) in let taken : takes p ≡ true = rw same at k.0 in cc
    | inr e ↦ rw (e, without_port-middle p kept ps k.1 t h) refl
  ]

  record Posted (e : Event) (kept ps : List ℕ) (h v : Hub) : Type 0 where
    ports : v.ports ≡ kept ++ filter takes ps
    delivered : v.delivered ≡ h.delivered ++ map (λ p. (p, e)) (filter takes ps)
    flushed : v.flushed ≡ h.flushed + one_if (is_nil (kept ++ filter takes ps) && not (is_nil ps))

  flush_if-kept :
      (b : Bool) (h : Hub)
      → ((flush_if b h).ports ≡ h.ports)
        × ((flush_if b h).delivered ≡ h.delivered)
        × ((flush_if b h).flushed ≡ h.flushed + one_if b)
  flush_if-kept true h = (refl, refl, omega arith)
  flush_if-kept false h = (refl, refl, omega arith)

  is_nil-middle : (xs ys : List ℕ) (p : ℕ) → is_nil (xs ++ p ∷ ys) ≡ false
  is_nil-middle [] ys p = refl
  is_nil-middle (x ∷ xs) ys p = refl

  and_false : (b : Bool) → one_if (b && false) ≡ 0
  and_false true = refl
  and_false false = refl

  -- A flush on a drop, or one later.
  flushes_once :
      (kept ps : List ℕ)
      → one_if (is_nil (kept ++ ps)) + one_if (is_nil (kept ++ filter takes ps) && not (is_nil ps))
        ≡ one_if (is_nil (kept ++ filter takes ps) && true)
  flushes_once (x ∷ kept) ps = refl
  flushes_once [] [] = refl
  flushes_once [] (y ∷ ys) = omega arith

  post_each-Posted :
      (e : Event) (kept ps : List ℕ) (h : Hub)
      → h.ports ≡ kept ++ ps
      → All (λ q. takes q ≡ true) kept
      → OncePort ps
      → Posted e kept ps h (post_each e ps h)
  post_each-Posted e kept [] h q k o = record {
    ports = q;
    delivered = sym (append-nil h.delivered);
    flushed = omega (arith, and_false (is_nil (kept ++ [])));
  }
  post_each-Posted e kept (p ∷ ps) h q k o = elim (Bool-cases (takes p)) [
    | inl t ↦
        let next = record h { delivered = h.delivered ++ (p, e) ∷ [] } in
        let r =
          post_each-Posted e (kept ++ p ∷ []) ps next (q ∙ sym (append_assoc kept (p ∷ []) ps))
            (All-append (λ q'. takes q' ≡ true) kept (p ∷ []) k (t, tt)) o.1 in
        rw t (record {
          ports = rw t (r.ports ∙ append_assoc kept (p ∷ []) (filter takes ps));
          delivered = rw t (
              r.delivered
              ∙ append_assoc h.delivered ((p, e) ∷ []) (map (λ q'. (q', e)) (filter takes ps)));
          flushed = rw t (
              r.flushed
              ∙ rw
                  (
                    append_assoc kept (p ∷ []) (filter takes ps),
                    is_nil-middle kept (filter takes ps) p,
                  )
                  refl);
        })
    | inr t ↦
        let gone = without_port-middle p kept ps k t o.0 in
        let base = record h { worker = disconnect p h.worker; ports = without_port p h.ports } in
        let d = flush_if-kept (is_nil (without_port p h.ports)) base in
        let left : without_port p h.ports ≡ kept ++ ps = rw q gone in
        let r = post_each-Posted e kept ps (drop_port p h) (d.0 ∙ left) k o.1 in
        rw t (record {
          ports = rw t r.ports;
          delivered = rw t (r.delivered ∙ ap (λ x. x ++ map (λ q'. (q', e)) (filter takes ps)) d.1);
          flushed =
              let n : (drop_port p h).flushed ≡ h.flushed + one_if (is_nil (kept ++ ps)) =
                d.2 ∙ ap (λ x. h.flushed + one_if (is_nil x)) left in
              rw t (omega (arith, r.flushed, n, flushes_once kept ps));
        })
  ]

  -- An event goes to every port that takes it, the ports that do not are dropped, and what the
  -- worker holds is flushed once if no port is left of those that there were, and not otherwise. No
  -- port is connected twice.
  pub broadcast-Posted :
      (e : Event) (h : Hub)
      → OncePort h.ports
      → ((broadcast e h).ports ≡ filter takes h.ports)
        × ((broadcast e h).delivered ≡ h.delivered ++ map (λ p. (p, e)) (filter takes h.ports))
        × ((broadcast e h).flushed
            ≡ h.flushed + (if is_nil (filter takes h.ports) && not (is_nil h.ports) then 1 else 0))
  unfolding broadcast
  broadcast-Posted e h o =
      let r = post_each-Posted e [] h.ports h refl tt o in (r.ports, r.delivered, r.flushed)
