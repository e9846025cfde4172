-- ===== src/Cache/Memory/Driver.antt =====
-- The in-process store keeps the contract of a cache driver.
use pylar_framework.Cache.Contract.{CacheStore}
use pylar_framework.Cache.Memory.{MemoryCacheStore, get, put, forget, flush}
use pylar_framework.Cache.Memory.Views

abbrev pub memory : CacheStore
memory = record {
  State = MemoryCacheStore;
  get = get;
  put = put;
  forget = forget;
  flush = flush;
  IsValid = Views.IsValid;
  view = Views.view;
  get-eq-view = Views.get-eq-view;
  view-get = λ k j now t s v h. Views.view-get k j now t s h;
  view-put = λ k j x ttl now t s v h. Views.view-put k j x ttl now t s v.unique h;
  view-forget = Views.view-forget;
  view-flush = Views.view-flush;
  get-IsValid = Views.get-IsValid;
  put-IsValid = Views.put-IsValid;
  forget-IsValid = Views.forget-IsValid;
  flush-IsValid = λ s v. Views.flush-IsValid s;
}
