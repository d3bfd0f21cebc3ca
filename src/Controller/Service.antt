-- ===== src/Controller/Service.antt =====
-- The service of the request queue, where the hardware answers every command.

use mathlib.Core.List.{append-nil}
use os_x_voodoo_ps2_controll.Base.{
  ℕ, zero, suc, ◌+◌, ◌-◌, ◌≡◌, ◌≢◌, ◌∙◌, ap, refl, sym, arith, Bool, true, false, Option, none,
  some, List, [], ◌∷◌, ◌++◌, if◌then◌else◌, inl, inr, Option-cases, Bool-cases, append_assoc,
}
use os_x_voodoo_ps2_controll.Controller.{Controller, Machine, keyboard}
use os_x_voodoo_ps2_controll.Controller.Command.{Kind, Command, Request}
use os_x_voodoo_ps2_controll.Controller.Requests.{
  M, ◌>>=◌, Mode, process_command, process_commands, process_request, process_all,
  process_request_queue, finish,
}
use os_x_voodoo_ps2_controll.Controller.Queue.{finishes}
use os_x_voodoo_ps2_controll.Controller.Keeping.{process_commands-Keeps}

pub bind-answers :
    {S D A B : Type 0} (act : M S D A) (f : A → M S D B) (c : Controller S D)
    → act c ≢ none
    → ((a : A) (c' : Controller S D) → f a c' ≢ none)
    → (act >>= f) c ≢ none
bind-answers {S} {D} {A} {B} act f c h k e = elim (Option-cases (act c)) [
  | inl q ↦ h q
  | inr ((a, c'), q) ↦ k a c' (
      sym (
        ap
          (λ r. elim r as (λ x. Option (B × Controller S D)) [
            | none ↦ none
            | some (a, c') ↦ f a c'
          ])
          q)
      ∙ e)
]

if-false : {A : Type 0} (b : Bool) (x y : A) → b ≡ false → (if b then x else y) ≡ y
if-false b x y e = ground (arith, e)

pub opened :
    {S D A B : Type 0} (act : M S D A) (f : A → M S D B) (c : Controller S D)
    {r : Option (A × Controller S D)}
    → act c ≡ r
    → (act >>= f) c
      ≡ elim r as (λ x. Option (B × Controller S D)) [ none ↦ none | some (a, c') ↦ f a c' ]
opened {S} {D} {A} {B} act f c q =
    ap (λ r. elim r as (λ x. Option (B × Controller S D)) [ none ↦ none | some (a, c') ↦ f a c' ]) q

if-answers :
    {S D A : Type 0} (b : Bool) (f g : M S D A) (c : Controller S D)
    → f c ≢ none
    → g c ≢ none
    → (if b then f else g) c ≢ none
if-answers true f g c h k = h
if-answers false f g c h k = k

-- A request has been processed: it has ended, and the bookkeeping is as it was but for that.
pub record Ended {S D : Type 0} (m : Machine S D) (rounds : ℕ) (r : Request) (c : Controller S D)
    : Type 0 where
  pub answer : Request
  pub after : Controller S D
  pub returns : process_request m rounds r c ≡ some (answer, after)
  pub same_request : answer.address ≡ r.address
  pub one_finish : after.finished ≡ c.finished ++ finish m rounds r ∷ []
  pub balanced : after.ignore_interrupts ≡ c.ignore_interrupts
  pub same_queue : after.request_queue ≡ c.request_queue

module _ {S D : Type 0} (m : Machine S D) (rounds : ℕ)
    (answers : (kind : Kind) (word : ℕ) (mode : Mode) (c : Controller S D)
      → process_command m rounds kind word mode c ≢ none) where
  process_commands-answers :
      (n : ℕ) (cs : List Command) (mode : Mode) (c : Controller S D)
      → process_commands m rounds n cs mode c ≢ none
  unfolding process_commands
  process_commands-answers zero cs mode c = λ e. ground (arith, e)
  process_commands-answers (suc n) [] mode c = λ e. ground (arith, e)
  process_commands-answers (suc n) (command ∷ cs) mode c =
      bind-answers (process_command m rounds command.kind command.word mode) _ c
        (answers command.kind command.word mode c)
        (λ done c'.
          if-answers done.failed _ _ c' (λ e. ground (arith, e))
            (bind-answers (process_commands m rounds n cs done.mode) _ c'
              (process_commands-answers n cs done.mode c') (λ r c'' e. ground (arith, e))))

  -- Where the hardware answers every command, a request ends, exactly once, whichever of its
  -- commands fails; the count of reasons to ignore interrupts is afterwards what it was.
  pub process_request-Ended : (r : Request) (c : Controller S D) → Ended m rounds r c
  unfolding process_request
  process_request-Ended r c = elim (Bool-cases c.hardware_offline) [
    | inl off ↦ record {
      answer = record r { commands_count = 0 };
      after = record c { finished = c.finished ++ finish m rounds r ∷ [] };
      returns = rw (off, process_request) refl;
      same_request = refl;
      one_finish = refl;
      balanced = refl;
      same_queue = refl;
    }
    | inr on ↦
        let c₁ : Controller S D = record c { ignore_interrupts = c.ignore_interrupts + 1 } in
        let mode : Mode = record { device = keyboard; transmit = false } in
        elim (Option-cases (process_commands m rounds r.commands_count r.commands mode c₁)) [
          | inl q ↦ absurd (process_commands-answers r.commands_count r.commands mode c₁ q)
          | inr ((done, c₂), q) ↦
              let same =
                process_commands-Keeps m rounds r.commands_count r.commands mode c₁ done c₂ q in
              record {
                answer = record r {
                  commands = done.0;
                  commands_count = elim done.1 as (λ x. ℕ) [ none ↦ r.commands_count | some i ↦ i ];
                };
                after = record c₂ {
                  ignore_interrupts = c₂.ignore_interrupts - 1;
                  finished = c₂.finished ++ finish m rounds r ∷ [];
                };
                returns =
                    if-false c.hardware_offline _ _ on
                    ∙ opened (process_commands m rounds r.commands_count r.commands mode) _ c₁ q;
                same_request = refl;
                one_finish = ap (λ l. l ++ finish m rounds r ∷ []) same.same_finished;
                balanced = omega (arith, same.same_ignored);
                same_queue = same.same_queue;
              }
        ]
  ]

  all-Served :
      (rs : List Request) (c : Controller S D)
      → (c' : Controller S D) × (process_all m rounds rs c ≡ some (tt, c'))
        × (c'.finished ≡ c.finished ++ finishes m rounds rs)
        × (c'.ignore_interrupts ≡ c.ignore_interrupts)
        × (c'.request_queue ≡ c.request_queue)
  unfolding process_all
  all-Served [] c = (c, refl, sym (append-nil c.finished), refl, refl)
  all-Served (r ∷ rs) c =
      let e = process_request-Ended r c in
      let (c', returns, finished, ignored, queue) = all-Served rs e.after in
      (
        c',
        rw (e.returns, process_all, ◌>>=◌) returns,
        finished
            ∙ ap (λ l. l ++ finishes m rounds rs) e.one_finish
            ∙ append_assoc c.finished (finish m rounds r ∷ []) (finishes m rounds rs),
        ignored ∙ e.balanced,
        queue ∙ e.same_queue,
      )

  -- Where the hardware answers every command, the work loop ends every request that was queued, once
  -- and in the order of submission, leaves the queue empty, and leaves the count of reasons to ignore
  -- interrupts as it was.
  pub process_request_queue-Served :
      (c : Controller S D)
      → (c' : Controller S D) × (process_request_queue m rounds c ≡ some (tt, c'))
        × (c'.finished ≡ c.finished ++ finishes m rounds c.request_queue)
        × (c'.ignore_interrupts ≡ c.ignore_interrupts)
        × (c'.request_queue ≡ [])
  unfolding process_request_queue
  process_request_queue-Served c = all-Served c.request_queue (record c { request_queue = [] })
