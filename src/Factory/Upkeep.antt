-- ===== src/Factory/Upkeep.antt =====
-- Every step keeps what backs a promise.
use pa.Prelude.{◌+◌, ◌≡◌, ◌≢◌, sym, ap, ◌∙◌, subst, [], ◌∷◌, ◌++◌, All, arith, ℤ, pos, eq_int_iff}
use pa.Messages.Request.{MapOp}
use pa.Storage.{order_op}
use pa.Factory.{AdminRequest, LaptopFactory}
use pa.Factory.Engineer.{Engineer}
use pa.Factory.Admin.{Admin}
use pa.Factory.Deeds.{Deed, quiet, asks, gets, Grown}
use pa.Factory.Chores.{Chore, takes, works, places, fulfils, reads, to_place, in_log}
use pa.Factory.Counts.{pending, handled}
use pa.Factory.Backing.{
  AskFor, LoggedFor, ValuedFor, Backed, All-snoc, none_of_queued, none_of_valued, All-take_promise,
  Grown-values, Grown-done,
}

module _ (owner : ℤ) (op : MapOp) (f f' : LaptopFactory) where
  -- A step of the admin keeps what backs a promise.
  pub Chore-Backed :
      (a a' : Admin)
      → All (λ req. req.type ≡ pos 1) (to_place a.place)
      → op ≡ order_op op.arg1 op.arg2
      → Grown f f'
      → Chore f a f' a'
      → Backed owner op f a
      → Backed owner op f' a'
  Chore-Backed a a' typed shape g (takes req erq fulfilled h h') b =
      let split = subst (AskFor owner op) erq b.queue in
      record {
        queue = split.1;
        hands = subst (AskFor owner op) (sym h'.0) (split.0, tt);
        done_with = subst (LoggedFor owner op _) (sym h'.1) tt;
        values =
            subst (ValuedFor owner op _) (sym fulfilled) (Grown-values owner op f f' g b.values);
      }
  Chore-Backed a a' typed shape g (works same h') b = record {
    queue = subst (AskFor owner op) (sym same.0) b.queue;
    hands = subst (AskFor owner op) (sym h'.0) b.hands;
    done_with = subst (LoggedFor owner op _) (sym h'.1) (Grown-done owner op f f' _ g b.done_with);
    values = subst (ValuedFor owner op _) (sym same.1) (Grown-values owner op f f' g b.values);
  }
  Chore-Backed a a' typed shape g (places req same h h' log) b = record {
    queue = subst (AskFor owner op) (sym same.0) b.queue;
    hands = subst (AskFor owner op) (sym h'.0) tt;
    done_with = subst (LoggedFor owner op _) (sym h'.1) (
      (λ e.
          let asks_it = (subst (AskFor owner op) h.0 b.hands).0 e in
          record {
            before = f.server_storage.state_machine_log;
            after = [];
            split =
                log
                ∙ ap (λ o. f.server_storage.state_machine_log ++ (o ∷ []))
                    (ap (λ o. order_op o.arg1 o.arg2) asks_it ∙ sym shape);
          }),
      tt,
    );
    values = subst (ValuedFor owner op _) (sym same.1) (Grown-values owner op f f' g b.values);
  }
  Chore-Backed a a' typed shape g (fulfils req value erq fulfilled h h') b =
      let logged = subst (LoggedFor owner op _) h.1 (Grown-done owner op f f' _ g b.done_with) in
      record {
        queue = subst (AskFor owner op) (sym erq) b.queue;
        hands = subst (AskFor owner op) (sym h'.0) tt;
        done_with = subst (LoggedFor owner op _) (sym h'.1) tt;
        values =
            subst (ValuedFor owner op _) (sym fulfilled)
              (logged.0, Grown-values owner op f f' g b.values);
      }
  Chore-Backed a a' typed shape g (reads req value erq fulfilled h h' read) b = absurd (
      ground (
        arith,
        read,
        (eq_int_iff req.type (pos 1)).1 (subst (All (λ r. r.type ≡ pos 1)) h.0 typed).0,
      ))

  -- A step of another engineer keeps it.
  pub Deed-Backed :
      (a : Admin) (e e' : Engineer)
      → e.id ≢ owner
      → Grown f f'
      → Deed f e f' e'
      → Backed owner op f a
      → Backed owner op f' a
  Deed-Backed a e e' other g (quiet erq fulfilled calm calm') b = record {
    queue = subst (AskFor owner op) (sym erq) b.queue;
    hands = b.hands;
    done_with = Grown-done owner op f f' _ g b.done_with;
    values = subst (ValuedFor owner op _) (sym fulfilled) (Grown-values owner op f f' g b.values);
  }
  Deed-Backed a e e' other g (asks laptop req erq fulfilled calm phase promise type ops) b =
      record {
        queue =
            subst (AskFor owner op) (sym erq)
              (All-snoc _ f.erq req b.queue (λ q. absurd (other (sym promise ∙ q))));
        hands = b.hands;
        done_with = Grown-done owner op f f' _ g b.done_with;
        values =
            subst (ValuedFor owner op _) (sym fulfilled) (Grown-values owner op f f' g b.values);
      }
  Deed-Backed a e e' other g (gets laptop value erq taken phase calm') b = record {
    queue = subst (AskFor owner op) (sym erq) b.queue;
    hands = b.hands;
    done_with = Grown-done owner op f f' _ g b.done_with;
    values =
        All-take_promise _ e.id f.fulfilled f'.fulfilled value taken
          (Grown-values owner op f f' g b.values);
  }

  -- An engineer that begins to wait has its request backed.
  pub new-Backed :
      (a : Admin) (req : AdminRequest)
      → pending owner f + handled owner a ≡ 0
      → f'.erq ≡ f.erq ++ (req ∷ [])
      → f'.fulfilled ≡ f.fulfilled
      → req.ops ≡ op
      → Backed owner op f' a
  new-Backed a req free erq fulfilled ops = record {
    queue =
        subst (AskFor owner op) (sym erq)
          (All-snoc _ f.erq req (none_of_queued owner _ f.erq (omega (arith, free))) (λ q. ops));
    hands = none_of_queued owner _ (to_place a.place) (omega (arith, free));
    done_with = none_of_queued owner _ (in_log a.place) (omega (arith, free));
    values =
        subst (ValuedFor owner op _) (sym fulfilled)
          (none_of_valued owner _ f.fulfilled (omega (arith, free)));
  }
