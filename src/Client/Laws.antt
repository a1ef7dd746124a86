-- ===== src/Client/Laws.antt =====
-- What a successful CreateOrUpdate shows, and how an object survives the calls about others.
use kubeturbo_deploy.Prelude.{◌≡◌, ◌∙◌, ap, sym, ◌≢◌, some, arith}
use kubeturbo_deploy.Outcome.{Outcome, ok, Exec}
use kubeturbo_deploy.Objects.{Kind, Object, Key, key_of}
use kubeturbo_deploy.Client.{
  Client, IsLawful, current, SameBut, Written, unread, refused, panicked, unwritten, written,
}

module _ (c : Client) where
  ok_of_Written :
      {k : Kind} {o : Object k} {f : Object k → Exec c.World (Object k)} {w v : c.World}
      {r : Outcome (Unit {0}) × c.World}
      → Written c k o f w r
      → r ≡ (ok tt, v)
      → (o' : Object k) × (u : c.World) × (f (current c k o w) w ≡ (ok o', u))
        × (c.find v k (key_of k o) ≡ some o')
        × SameBut c k (key_of k o) u v
  ok_of_Written (unread e p) h = absurd (ground arith)
  ok_of_Written (refused e u q p) h = absurd (ground arith)
  ok_of_Written (panicked u q p) h = absurd (ground arith)
  ok_of_Written (unwritten e o' u q p) h = absurd (ground arith)
  ok_of_Written {k} {o} {v} (written o' u v' q found same p) h =
      let e : v' ≡ v = ground arith in
      (
        o',
        u,
        q,
        ap (λ (x : c.World). c.find x k (key_of k o)) (sym e) ∙ found,
        λ j other n. ap (λ (x : c.World). c.find x j other) (sym e) ∙ same j other n,
      )

  -- An object that another call leaves alone.
  pub SameBut-kept :
      {k j : Kind} {key other : Key} {w v : c.World} {o : Object j}
      → SameBut c k key w v
      → j ≢ k
      → c.find w j other ≡ some o
      → c.find v j other ≡ some o
  SameBut-kept same ne found = same _ _ (λ p. ne p.0) ∙ found

module _ (c : Client) (lawful : IsLawful c) where
  -- A successful call ran the function on the current object, and stored its result.
  pub create_or_update-ok :
      (k : Kind) (o : Object k) (f : Object k → Exec c.World (Object k)) (w v : c.World)
      → c.create_or_update k o f w ≡ (ok tt, v)
      → (o' : Object k) × (u : c.World) × (f (current c k o w) w ≡ (ok o', u))
        × (c.find v k (key_of k o) ≡ some o')
        × SameBut c k (key_of k o) u v
  create_or_update-ok k o f w v h = ok_of_Written c (lawful.create_or_update-Written k o f w) h
