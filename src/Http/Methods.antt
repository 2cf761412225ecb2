-- ===== src/Http/Methods.antt =====
-- The tables of methods: numbers, names and the two readings of a name.
use link_server.Base.{
  ◌≡◌, refl, ap₂, List, [], ◌∷◌, ◌++◌, Bool, true, ◌==◌, Bool-cases, ◌⊎◌, inl, inr, arith,
}
use link_server.Http.{
  Text, HttpMethod, delete_method, get_method, head_method, post_method, put_method, connect_method,
  options_method, trace_method, copy_method, lock_method, mkcol_method, move_method,
  propfind_method, proppatch_method, search_method, unlock_method, bind_method, rebind_method,
  unbind_method, acl_method, report_method, mkactivity_method, checkout_method, merge_method,
  msearch_method, notify_method, subscribe_method, unsubscribe_method, patch_method, purge_method,
  mkcalendar_method, link_method, unlink_method, source_method, invalid_method, all_methods,
  http_method_to_string, string_to_http_method, chars_to_http_method, eq_text, first_method, c_str,
}

-- The name of every method is read back as the method by StringToHttpMethod, and by
-- CharsToHttpMethod whatever follows it; the name of the invalid one is no method's.
pub to_http_method-http_method_to_string :
    (m : HttpMethod)
    → (string_to_http_method (http_method_to_string m) ≡ m)
      × ((rest : Text) → chars_to_http_method (http_method_to_string m ++ rest) ≡ m)
unfolding string_to_http_method chars_to_http_method http_method_to_string
to_http_method-http_method_to_string delete_method = (refl, λ rest. refl)
to_http_method-http_method_to_string get_method = (refl, λ rest. refl)
to_http_method-http_method_to_string head_method = (refl, λ rest. refl)
to_http_method-http_method_to_string post_method = (refl, λ rest. refl)
to_http_method-http_method_to_string put_method = (refl, λ rest. refl)
to_http_method-http_method_to_string connect_method = (refl, λ rest. refl)
to_http_method-http_method_to_string options_method = (refl, λ rest. refl)
to_http_method-http_method_to_string trace_method = (refl, λ rest. refl)
to_http_method-http_method_to_string copy_method = (refl, λ rest. refl)
to_http_method-http_method_to_string lock_method = (refl, λ rest. refl)
to_http_method-http_method_to_string mkcol_method = (refl, λ rest. refl)
to_http_method-http_method_to_string move_method = (refl, λ rest. refl)
to_http_method-http_method_to_string propfind_method = (refl, λ rest. refl)
to_http_method-http_method_to_string proppatch_method = (refl, λ rest. refl)
to_http_method-http_method_to_string search_method = (refl, λ rest. refl)
to_http_method-http_method_to_string unlock_method = (refl, λ rest. refl)
to_http_method-http_method_to_string bind_method = (refl, λ rest. refl)
to_http_method-http_method_to_string rebind_method = (refl, λ rest. refl)
to_http_method-http_method_to_string unbind_method = (refl, λ rest. refl)
to_http_method-http_method_to_string acl_method = (refl, λ rest. refl)
to_http_method-http_method_to_string report_method = (refl, λ rest. refl)
to_http_method-http_method_to_string mkactivity_method = (refl, λ rest. refl)
to_http_method-http_method_to_string checkout_method = (refl, λ rest. refl)
to_http_method-http_method_to_string merge_method = (refl, λ rest. refl)
to_http_method-http_method_to_string msearch_method = (refl, λ rest. refl)
to_http_method-http_method_to_string notify_method = (refl, λ rest. refl)
to_http_method-http_method_to_string subscribe_method = (refl, λ rest. refl)
to_http_method-http_method_to_string unsubscribe_method = (refl, λ rest. refl)
to_http_method-http_method_to_string patch_method = (refl, λ rest. refl)
to_http_method-http_method_to_string purge_method = (refl, λ rest. refl)
to_http_method-http_method_to_string mkcalendar_method = (refl, λ rest. refl)
to_http_method-http_method_to_string link_method = (refl, λ rest. refl)
to_http_method-http_method_to_string unlink_method = (refl, λ rest. refl)
to_http_method-http_method_to_string source_method = (refl, λ rest. refl)
to_http_method-http_method_to_string invalid_method = (refl, λ rest. refl)

eq_text-to : (s t : Text) → eq_text s t ≡ true → s ≡ t
eq_text-to [] [] h = refl
eq_text-to [] (b ∷ t) h = ground (arith, h)
eq_text-to (a ∷ s) [] h = ground (arith, h)
eq_text-to (a ∷ s) (b ∷ t) h = elim (Bool-cases (a == b)) [
  | inl e ↦
      let same : a ≡ b = ground (arith, e) in
      ap₂ (λ x xs. x ∷ xs) same (eq_text-to s t (ground (arith, h, e)))
  | inr e ↦ ground (arith, h, e)
]

first_method_lem :
    (p : Text → Bool) (ms : List HttpMethod)
    → (first_method p ms ≡ invalid_method) ⊎ (p (http_method_to_string (first_method p ms)) ≡ true)
first_method_lem p [] = inl refl
first_method_lem p (m ∷ ms) = elim (Bool-cases (p (http_method_to_string m))) [
  | inl e ↦ inr (rw e e)
  | inr e ↦ rw e (first_method_lem p ms)
]

-- StringToHttpMethod answers the invalid method or one whose name is the text.
pub string_to_http_method_lem :
    (s : Text)
    → (string_to_http_method s ≡ invalid_method)
      ⊎ (http_method_to_string (string_to_http_method s) ≡ c_str s)
unfolding string_to_http_method
string_to_http_method_lem s = elim (first_method_lem (λ t. eq_text t (c_str s)) all_methods) [
  | inl e ↦ inl e
  | inr e ↦ inr (eq_text-to _ (c_str s) e)
]
