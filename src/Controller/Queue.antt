-- ===== src/Controller/Queue.antt =====
-- The request queue while the hardware is off line.

use mathlib.Core.List.{map, append-nil}
use os_x_voodoo_ps2_controll.Base.{
  ℕ, ◌≡◌, ◌∙◌, ap, refl, sym, true, some, List, [], ◌∷◌, ◌++◌, append_assoc,
}
use os_x_voodoo_ps2_controll.Controller.{Controller, Machine}
use os_x_voodoo_ps2_controll.Controller.Command.{Request, Finish}
use os_x_voodoo_ps2_controll.Controller.Requests.{
  process_request, process_all, process_request_queue, submit_request_and_block, finish, ◌>>=◌,
}

module _ {S D : Type 0} (m : Machine S D) (rounds : ℕ) where
  abbrev pub finishes : List Request → List Finish
  finishes = map (finish m rounds)

  process_request-offline :
      (r : Request) (c : Controller S D)
      → c.hardware_offline ≡ true
      → process_request m rounds r c
        ≡ some (
          record r { commands_count = 0 },
          record c { finished = c.finished ++ finish m rounds r ∷ [] },
        )
  unfolding process_request
  process_request-offline r c off = rw off refl

  process_all-offline :
      (rs : List Request) (c : Controller S D)
      → c.hardware_offline ≡ true
      → process_all m rounds rs c ≡ some (tt, record c { finished = c.finished ++ finishes rs })
  unfolding process_all
  process_all-offline [] c off =
      ap (λ l. some (tt, record c { finished = l })) (sym (append-nil c.finished))
  process_all-offline (r ∷ rs) c off =
      rw (process_request-offline r c off, process_all, ◌>>=◌)
        (process_all-offline rs (record c { finished = c.finished ++ finish m rounds r ∷ [] }) off
          ∙ ap (λ l. some (tt, record c { finished = l }))
              (append_assoc c.finished (finish m rounds r ∷ []) (finishes rs)))

  -- While the hardware is off line, the work loop ends every request that is queued, once and in the
  -- order of submission, and no port is touched; a request that blocks ends after them, as a
  -- request of which no command has succeeded.
  pub submit_offline :
      (r : Request) (c : Controller S D)
      → c.hardware_offline ≡ true
      → submit_request_and_block m rounds r c
        ≡ some (
          record r { commands_count = 0 },
          record c {
            request_queue = [];
            finished = c.finished ++ finishes (c.request_queue ++ r ∷ []);
          },
        )
  unfolding submit_request_and_block process_request_queue
  submit_offline r c off =
      let emptied : Controller S D = record c {
        request_queue = [];
        finished = c.finished ++ finishes c.request_queue;
      } in
      rw
        (
          process_all-offline c.request_queue (record c { request_queue = [] }) off,
          submit_request_and_block,
          process_request_queue,
          ◌>>=◌,
        )
        (process_request-offline r emptied off
          ∙ ap
              (λ l.
                some
                  (record r { commands_count = 0 }, record c { request_queue = []; finished = l }))
              (append_assoc c.finished (finishes c.request_queue) (finish m rounds r ∷ [])
                ∙ ap (λ l. c.finished ++ l) (sym (map_append c.request_queue r))))
    where
      map_append :
          (rs : List Request) (r : Request)
          → finishes (rs ++ r ∷ []) ≡ finishes rs ++ finish m rounds r ∷ []
      map_append [] r = refl
      map_append (x ∷ rs) r = ap (λ l. finish m rounds x ∷ l) (map_append rs r)
