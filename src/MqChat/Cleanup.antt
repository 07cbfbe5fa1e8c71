-- ===== src/MqChat/Cleanup.antt =====
-- What `main` of module3/task03/main.c leaves behind.
use eltex_practice.Base.{
  ℕ, ◌≡◌, refl, sym, subst, Bool, true, false, List, [], ◌++◌, Option, none, some, Bytes, inl, inr,
}
use eltex_practice.Resources.{Effect, Settles, Option-both, if_both}
use eltex_practice.MqChat.Queues.{
  Opening, Session, init_chat_queues, cleanup_chat_queues, create, join,
}
use eltex_practice.MqChat.Talk.{Input, Talked, run_chat_loop, after_opening, chat_main}

-- The opening of the queues and the end of the program behind it.
abbrev finish : Bytes → Option Session × List Effect → Option Bool × List Effect
finish base_name opened = elim opened.0 [
  | none ↦ (some false, opened.1)
  | some s ↦ (some true, opened.1 ++ cleanup_chat_queues s base_name)
]

IsTidy : Bytes → Option Session × List Effect → Type 0
IsTidy base_name opened = Settles [] (finish base_name opened)

create-IsTidy :
    (o : Opening) (base_name : Bytes) (rx : ℕ) → IsTidy base_name (create o base_name rx)
unfolding IsTidy cleanup_chat_queues
create-IsTidy o base_name rx =
    Option-both (IsTidy base_name) o.create_tx _ _
      (record { ended = (false, refl); freed = tt; released = (inr (inl refl), (inl refl, tt)) })
      λ tx. record {
        ended = (true, refl);
        freed = tt;
        released =
            (inr (inr (inl refl)), (inl refl, (inr (inr (inr (inl refl))), (inr (inl refl), tt))));
      }

join-IsTidy : (o : Opening) (base_name : Bytes) → IsTidy base_name (join o)
unfolding IsTidy cleanup_chat_queues
join-IsTidy o base_name =
    Option-both (IsTidy base_name) o.open_tx _ _
      (record { ended = (false, refl); freed = tt; released = tt })
      λ tx.
        Option-both (IsTidy base_name) o.open_rx _ _
          (record { ended = (false, refl); freed = tt; released = (inl refl, tt) })
          λ rx. record {
            ended = (true, refl);
            freed = tt;
            released = (inr (inl refl), (inl refl, tt));
          }

init_chat_queues-IsTidy :
    (o : Opening) (base_name : Bytes) → IsTidy base_name (init_chat_queues o base_name)
unfolding IsTidy init_chat_queues
init_chat_queues-IsTidy o base_name =
    Option-both (IsTidy base_name) o.create_rx _ _
      (if_both (IsTidy base_name) o.eexist _ _ (join-IsTidy o base_name)
        (record { ended = (false, refl); freed = tt; released = tt }))
      λ rx. create-IsTidy o base_name rx

after_opening-finish :
    (session : Option Session) (effects : List Effect) (talked : Talked) (base_name : Bytes)
    → talked.ended ≡ true
    → let r = after_opening session effects talked base_name in
      (r.0, r.2) ≡ finish base_name (session, effects)
after_opening-finish none effects talked base_name h = refl
after_opening-finish (some s) effects talked base_name h = rw (h) refl

-- Whichever call of `mq_open` fails and whichever side it is, when the loop has ended the program has closed
-- what it opened and removed the queues that it created.
pub chat_main-Settles :
    (o : Opening) (base_name : Bytes) (starts : Bool) (inputs : List Input)
    → (run_chat_loop starts inputs).ended ≡ true
    → let r = chat_main o base_name starts inputs in Settles [] (r.0, r.2)
unfolding chat_main IsTidy
chat_main-Settles o base_name starts inputs h =
    let (session, effects) = init_chat_queues o base_name in
    subst (Settles [])
      (sym (after_opening-finish session effects (run_chat_loop starts inputs) base_name h))
      (init_chat_queues-IsTidy o base_name)
