-- ===== src/Guest/Cli/Printing.antt =====
-- What the parts of a command print on stdout (guest_reply/cli.py).
use holahost.Base.{
  String, ◌≡◌, refl, sym, ap, ◌⊎◌, inl, inr, ◌∙◌, Bool, true, false, if-cases, Option, none, some,
  List, ◌∷◌, Result, ok, err, or_raise, arith,
}
use mathlib.Core.Path.{subst}
use holahost.Base.Dict.{Dict}
use holahost.Base.Action.{pure, raise, continue, ◌>>=◌, ◌>>◌}
use holahost.Base.Action.Hoare.{Keeps}
use holahost.Auth.{Json}
use holahost.Guest.Errors.{GuestReplyError, CleanupFailure, Raised, failed, defect, exit_code}
use holahost.Guest.World.{World, M, Printed, line, json_object}
use holahost.Guest.Flows.{Services, Answer}
use holahost.Guest.Cli.{
  C, Setup, Stopped, raised, exits, calling, emit, services, handled, fail, answer_with, exit_after,
  notify_no_context, command, print_json, run_object, echo_line, with_cleanup_error, answer_body,
  answer_text, warn_if,
}
use holahost.Guest.Cli.Silence.{As, services-Keeps}

pub record ShownIf (json : Bool) (out : List Printed) (w : World) : Type 0 where
  pub one_object : json ≡ true → (body : Json) × (w.stdout ≡ json_object body ∷ out)
  pub one_text : json ≡ false → (w.stdout ≡ out) ⊎ ((s : String) × (w.stdout ≡ line s ∷ out))

module _ (setup : Setup) (out : List Printed) where
  -- Of a command's body: what failed has printed nothing.
  abbrev pub Prepared : Result Stopped (Unit {0}) × World → Type 0
  Prepared (ok _, w) = ShownIf setup.json_output out w
  Prepared (err (exits _), w) = ShownIf setup.json_output out w
  Prepared (err (raised (failed _ _)), w) = As out w
  Prepared (err (raised (defect _)), w) = Unit

  abbrev pub PrintsIf : Result Stopped (Unit {0}) × World → Type 0
  PrintsIf (ok _, w) = ShownIf setup.json_output out w
  PrintsIf (err (exits _), w) = ShownIf setup.json_output out w
  PrintsIf (err (raised (failed _ _)), w) = ⊥
  PrintsIf (err (raised (defect _)), w) = Unit

  object-Shown :
      (body : Dict String Json) (w : World)
      → setup.json_output ≡ true
      → As out w
      → ShownIf setup.json_output out (print_json setup body w).1
  object-Shown body w j h = record {
    one_object = λ _. (run_object setup body, ap (λ o. json_object (run_object setup body) ∷ o) h);
    one_text = λ k. ground (arith, j, k);
  }

  text-Shown :
      (s : Option String) (w : World)
      → setup.json_output ≡ false
      → As out w
      → ((echo_line setup s w).0 ≡ ok tt) × ShownIf setup.json_output out (echo_line setup s w).1
  unfolding pure
  text-Shown none w j h =
      (refl, record { one_object = λ k. ground (arith, j, k); one_text = λ _. inl h })
  text-Shown (some s) w j h = (
    refl,
    record {
      one_object = λ k. ground (arith, j, k);
      one_text = λ _. inr (s, ap (λ o. line s ∷ o) h);
    },
  )

  emit-Shown :
      (s : Option String) (body : Dict String Json) (w : World)
      → As out w
      → ((emit setup s body w).0 ≡ ok tt) × ShownIf setup.json_output out (emit setup s body w).1
  unfolding emit
  emit-Shown s body w h =
      if-cases (λ (m : C (Unit {0})). ((m w).0 ≡ ok tt) × ShownIf setup.json_output out (m w).1)
        setup.json_output _ _ (λ j. (refl, object-Shown body w j h)) (λ j. text-Shown s w j h)

  -- What only adds to stderr
  quietly :
      (w w' : World)
      → w'.stdout ≡ w.stdout
      → ShownIf setup.json_output out w
      → ShownIf setup.json_output out w'
  quietly w w' e h = record {
    one_object = λ j. let (body, p) = h.one_object j in (body, e ∙ p);
    one_text = λ j. elim (h.one_text j) [ inl p ↦ inl (e ∙ p) | inr (s, p) ↦ inr (s, e ∙ p) ];
  }

  exit_after-Prepared :
      (a : Option Answer) (c : Option CleanupFailure) (w : World)
      → ShownIf setup.json_output out w
      → Prepared ((notify_no_context setup a >> exit_after setup a c) w)
  unfolding ◌>>=◌ pure raise
  exit_after-Prepared (some a) none w h = h
  exit_after-Prepared (some a) (some f) w h = quietly w _ refl h
  exit_after-Prepared none c w h =
      if-cases (λ (m : C (Unit {0})). Prepared ((m >> exit_after setup none c) w)) setup.json_output
        _ _ (λ _. no_answer c w h) (λ _. no_answer c _ (quietly w _ refl h))
    where
      no_answer :
          (c : Option CleanupFailure) (w : World)
          → ShownIf setup.json_output out w
          → Prepared (exit_after setup none c w)
      no_answer none w h = h
      no_answer (some f) w h = quietly w _ refl h

  fail-Prints :
      (e : GuestReplyError) (c : Option CleanupFailure) (w : World)
      → As out w
      → PrintsIf (fail setup e c w)
  unfolding fail ◌>>=◌ pure raise
  fail-Prints e c w h =
      if-cases
        (λ (m : C (Unit {0})).
          PrintsIf ((m >>= λ _. warn_if c >>= λ _. raise (exits (exit_code e.class))) w))
        setup.json_output _ _ (λ j. warned c _ (object-Shown _ w j h))
        (λ j. warned c _ (record { one_object = λ k. ground (arith, j, k); one_text = λ _. inl h }))
    where
      warned :
          (c : Option CleanupFailure) (w : World)
          → ShownIf setup.json_output out w
          → PrintsIf ((warn_if c >>= λ _. raise (exits (exit_code e.class))) w)
      warned none w h = h
      warned (some f) w h = quietly w _ refl h

  handled-Prints :
      (r : Result Stopped (Unit {0})) (w : World)
      → Prepared (r, w)
      → PrintsIf (handled setup (r, w))
  handled-Prints (ok _) w h = h
  handled-Prints (err (exits code)) w h = h
  handled-Prints (err (raised (failed e c))) w h = fail-Prints e c w h
  handled-Prints (err (raised (defect notes))) w h = tt

  pub calling-Prepared :
      {A : Type 0} (m : M A) (k : A → C (Unit {0}))
      → Keeps (As out) m
      → ((a : A) (w : World) → As out w → Prepared (k a w))
      → (w : World) → As out w
      → Prepared ((calling m >>= k) w)
  unfolding calling ◌>>=◌
  calling-Prepared {A = A} m k c h w e = let (r, w') = m w in called r w' (c.keeps w e)
    where
      called :
          (r : Result Raised A) (w : World) → As out w → Prepared (continue (or_raise raised r) k w)
      called (ok a) w e = h a w e
      called (err (failed x c)) w e = e
      called (err (defect notes)) w e = tt

  pub emit-Prepared :
      (s : Option String) (body : Dict String Json) (w : World)
      → As out w
      → Prepared (emit setup s body w)
  emit-Prepared s body w h =
      let (r, w') = emit setup s body w in
      let (e, shown) = emit-Shown s body w h in subst (λ r. Prepared (r, w')) (sym e) shown

  pub answer_with-Prepared :
      (a : Option Answer) (id : String) (c : Option CleanupFailure) (w : World)
      → As out w
      → Prepared (answer_with setup a id c w)
  unfolding answer_with ◌>>=◌
  answer_with-Prepared a id c w h =
      let body = with_cleanup_error c (answer_body a id) in
      let (r, w') = emit setup (answer_text a) body w in
      let (e, shown) = emit-Shown (answer_text a) body w h in
      subst (λ r. Prepared (continue r (λ _. notify_no_context setup a >> exit_after setup a c) w'))
        (sym e) (exit_after-Prepared a c w' shown)

  pub command-Prints :
      (k : Services → C (Unit {0}))
      → ((s : Services) (w : World) → As out w → Prepared (k s w))
      → (w : World) → As out w
      → PrintsIf (command setup (calling (services setup) >>= k) w)
  unfolding command
  command-Prints k h w e =
      let (r, w') = (calling (services setup) >>= k) w in
      handled-Prints r w' (calling-Prepared (services setup) k (services-Keeps out setup) h w e)
