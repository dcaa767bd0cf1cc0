-- ===== src/Managed/Scraping.antt =====
-- What a scrape collects of the managed gauges.
use mathlib.Core.List.{append_assoc, append-nil, map-append}
use validator_health_collect.Base.{◌≡◌, refl, sym, ap, ◌∙◌, subst, String, List, [], ◌∷◌, ◌++◌}
use validator_health_collect.Base.Dict.{Dict}
use validator_health_collect.Base.Float.{Float64}
use validator_health_collect.Collector.Metrics.{Metric, collect_managed}
use validator_health_collect.Managed.Writes.{Call}
use validator_health_collect.Managed.Registry.{
  Registry, perform_all, Writer, idle, busy, Reader, away, reading, Section, Step, lock, call,
  unlock, rlock, read, runlock, Reach, start, later, Settled, initial, after, series,
}

module _ {W : Type 0} ⦃f : Float64 W⦄ (r0 : Registry W) where
  -- Inside its critical section the scanner has made a part of the calls on a settled registry, and
  -- no scrape is reading; a scrape that is reading has collected a part of a settled registry.
  abbrev Inv : Registry W → Writer W → Reader W → Type 0
  Inv r idle away = Settled r0 r
  Inv r idle (reading ms got) =
      Settled r0 r × ((done : List Metric) × (done ++ ms ≡ collect_managed) × (got ≡ series r done))
  Inv r (busy cs) away =
      (s : Registry W) × (all : List (Call W)) × Settled r0 s
      × Section all
      × (perform_all cs r ≡ perform_all all s)
  Inv r (busy cs) (reading ms got) = ⊥

  Step-Inv :
      {r s : Registry W} {v w : Writer W} {x y : Reader W}
      → Step r v x s w y
      → Inv r v x
      → Inv s w y
  Step-Inv (lock {r} {cs} sec) h = (r, cs, h, sec, refl)
  Step-Inv (call {x = away}) h = h
  Step-Inv (call {x = reading ms got}) h = h
  Step-Inv (unlock {x = away}) (s, cs, settled, sec, e) =
      subst (Settled r0) (sym e) (after settled sec)
  Step-Inv (unlock {x = reading ms got}) h = absurd h
  Step-Inv rlock h = (h, ([], refl, refl))
  Step-Inv (read {r} {w = idle} {m} {ms}) (settled, (done, e, q)) = (
    settled,
    (
      done ++ (m ∷ []),
      append_assoc done (m ∷ []) ms ∙ e,
      ap (λ g. g ++ ((m, r m) ∷ [])) q ∙ sym (map-append (λ n. (n, r n)) done (m ∷ [])),
    ),
  )
  Step-Inv (read {w = busy cs}) h = absurd h
  Step-Inv (runlock {w = idle}) (settled, _) = settled
  Step-Inv (runlock {w = busy cs}) h = absurd h

  Reach-Inv : {r : Registry W} {w : Writer W} {x : Reader W} → Reach r0 r w x → Inv r w x
  Reach-Inv start = initial
  Reach-Inv (later h s) = Step-Inv s (Reach-Inv h)

  -- However the calls of the scanner and of a scrape are interleaved, a scrape that has read all managed
  -- gauges has the series of one registry, and that is the first one, or what whole critical sections
  -- of the scanner, one after another, have made of it.
  pub scrape-Settled :
      (r : Registry W) (w : Writer W) (got : List (Metric × Dict (List String) W))
      → Reach r0 r w (reading [] got)
      → Settled r0 r × (got ≡ series r collect_managed)
  scrape-Settled r idle got h =
      let (settled, (done, e, q)) = Reach-Inv h in
      (settled, q ∙ ap (series r) (sym (append-nil done) ∙ e))
  scrape-Settled r (busy cs) got h = absurd (Reach-Inv h)
