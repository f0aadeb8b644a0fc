-- ===== src/Patterns/Registry.antt =====
-- reasoning_patterns/patterns/*.py and reasoning_patterns/__init__.py: the six patterns.
use financial_pdf_reader.Base.{String, false, none, some, List, [], ◌∷◌}
use financial_pdf_reader.Text.{Text, codes, texts}
use financial_pdf_reader.Patterns.{PatternDefinition}

abbrev operating_vs_net_income : PatternDefinition
operating_vs_net_income = record {
  pattern_id = "operating_vs_net_income";
  name_zh = "營業損益與稅後損益方向差異";
  observation_template =
      "本期財報含 tier_a 非常態業外項目，稅後損益與本業損益可能方向不一致。建議逐項確認業外收益（處分利益、匯兌、轉投資收益等）性質，評估本期獲利是否反映常態化本業能力。";
  required_filters =
      record {
        section_keys = some ("accounting_adjustments" ∷ "key_financials" ∷ []);
        materiality = some ("tier_a" ∷ []);
        recurring = some false;
        claim_types = none;
        keywords = none;
        inspect_description = codes "tier_a + recurring=False + adjustments/financials";
      }
      ∷ record {
        section_keys = some ("accounting_adjustments" ∷ "key_financials" ∷ []);
        materiality = none;
        recurring = none;
        claim_types = none;
        keywords = some (
            texts (
              "業外" ∷ "其他收益" ∷ "其他收入" ∷ "處分利益" ∷ "投資利益" ∷ "non-operating" ∷ "other income"
              ∷ "disposal gain" ∷ []));
        inspect_description = codes "業外收益相關 claim";
      }
      ∷ [];
  inspect_description = codes "tier_a 非常態業外項目（accounting_adjustments 或 key_financials）";
}

abbrev non_recurring_eps_amounts : List Text
non_recurring_eps_amounts =
    texts ("%" ∷ "％" ∷ "億" ∷ "萬" ∷ "百萬" ∷ "千萬" ∷ "元" ∷ "million" ∷ "billion" ∷ [])

abbrev non_recurring_eps : PatternDefinition
non_recurring_eps = record {
  pattern_id = "non_recurring_eps";
  name_zh = "非常態項目影響 EPS";
  observation_template =
      "本期財報含 tier_a 非常態性項目且有量化金額揭露，報告 EPS 可能包含一次性收益或損失。建議計算正規化 EPS（剔除非常態項目後），以評估常態獲利能力。";
  required_filters =
      record {
        section_keys = some ("key_financials" ∷ "accounting_adjustments" ∷ []);
        materiality = some ("tier_a" ∷ []);
        recurring = some false;
        claim_types = none;
        keywords = some non_recurring_eps_amounts;
        inspect_description = codes "tier_a + recurring=False + 含金額揭露";
      }
      ∷ [];
  inspect_description = codes "tier_a 非常態項目含金額揭露（key_financials 或 accounting_adjustments）";
}

abbrev fx_driven_profit_keywords : List Text
fx_driven_profit_keywords = texts (
    "匯兌" ∷ "外幣" ∷ "匯率" ∷ "兌換損益" ∷ "外匯" ∷ "FX" ∷ "foreign currency" ∷ "exchange rate" ∷ "currency"
    ∷ "匯兌損失" ∷ "匯兌利益" ∷ "匯兌影響" ∷ [])

abbrev fx_driven_profit_amounts : List Text
fx_driven_profit_amounts =
    texts (
      "%" ∷ "％" ∷ "億元" ∷ "萬元" ∷ "千萬元" ∷ "百萬元" ∷ "億" ∷ "萬" ∷ "百萬" ∷ "千萬" ∷ "million" ∷ "billion"
      ∷ [])

abbrev fx_sections : List String
fx_sections = "risk_register" ∷ "key_financials" ∷ "accounting_adjustments" ∷ []

abbrev fx_driven_profit : PatternDefinition
fx_driven_profit = record {
  pattern_id = "fx_driven_profit";
  name_zh = "匯兌損益影響損益";
  observation_template =
      "本期財報含量化匯兌損益揭露。匯兌損益屬非現金影響，且受匯率波動影響，需確認其對稅前損益的相對規模，並與業務現金流分開評估。注意：匯兌損益不應自動歸類為一次性項目，需視公司外幣曝險結構判斷。";
  required_filters =
      record {
        section_keys = some fx_sections;
        materiality = none;
        recurring = none;
        claim_types = none;
        keywords = some fx_driven_profit_keywords;
        inspect_description = codes "FX/匯兌相關 claim";
      }
      ∷ record {
        section_keys = some fx_sections;
        materiality = none;
        recurring = none;
        claim_types = none;
        keywords = some fx_driven_profit_amounts;
        inspect_description = codes "含量化金額之 claim（%, 億, 萬, 元 等）";
      }
      ∷ [];
  inspect_description = codes "匯兌損益關鍵字 + 量化金額，於 risk_register 或 key_financials";
}

abbrev expense_ratio_offset_keywords : List Text
expense_ratio_offset_keywords = texts (
    "營收" ∷ "營業收入" ∷ "revenue" ∷ "sales" ∷ "毛利" ∷ "毛利率" ∷ "gross margin" ∷ "gross profit" ∷ "費用率"
    ∷ "營業費用" ∷ "operating expense" ∷ [])

abbrev expense_ratio_offset : PatternDefinition
expense_ratio_offset = record {
  pattern_id = "expense_ratio_offset";
  name_zh = "獲利趨勢與營收趨勢不一致";
  observation_template =
      "本期財報同時含營收/毛利率相關揭露與 tier_a 非常態項目，獲利趨勢與營收趨勢可能因業外或非常態因素出現分歧。建議分別確認：毛利率變化、費用率結構、及業外項目對淨利的貢獻比重。";
  required_filters =
      record {
        section_keys = some ("key_financials" ∷ "accounting_adjustments" ∷ []);
        materiality = none;
        recurring = none;
        claim_types = none;
        keywords = some expense_ratio_offset_keywords;
        inspect_description = codes "營收/毛利/費用率相關 claim";
      }
      ∷ record {
        section_keys = some ("key_financials" ∷ "accounting_adjustments" ∷ []);
        materiality = some ("tier_a" ∷ []);
        recurring = some false;
        claim_types = none;
        keywords = none;
        inspect_description = codes "tier_a + recurring=False";
      }
      ∷ [];
  inspect_description = codes "同時有營收/費用相關 claim + tier_a 非常態項目";
}

abbrev debt_maturity_risk_keywords : List Text
debt_maturity_risk_keywords = texts (
    "可轉換公司債" ∷ "可轉債" ∷ "convertible bond" ∷ "convertible note" ∷ "到期" ∷ "maturity" ∷ "due date"
    ∷ "賣回" ∷ "put option" ∷ "put back" ∷ "流動負債" ∷ "current liabilities" ∷ "current portion" ∷ "短期借款"
    ∷ "short-term debt" ∷ "short-term borrowing" ∷ "償還" ∷ "repayment" ∷ "refinancing" ∷ [])

abbrev debt_maturity_risk : PatternDefinition
debt_maturity_risk = record {
  pattern_id = "debt_maturity_risk";
  name_zh = "短期債務/可轉債到期壓力";
  observation_template =
      "本期財報含流動性或證據缺口相關揭露，涉及債務到期、可轉債或短期負債，建議確認：近期到期債務規模、可轉債賣回條款行使可能性、及現金與可用信用額度是否足以覆蓋到期債務。";
  required_filters =
      record {
        section_keys = some ("liquidity" ∷ "evidence_gaps" ∷ "key_financials" ∷ []);
        materiality = none;
        recurring = none;
        claim_types = none;
        keywords = some debt_maturity_risk_keywords;
        inspect_description = codes "債務到期/可轉債/流動負債相關 claim";
      }
      ∷ [];
  inspect_description = codes "流動性/evidence_gaps 區段中含債務到期或可轉債相關 claim";
}

abbrev customer_concentration_keywords : List Text
customer_concentration_keywords = texts (
    "客戶集中" ∷ "客戶集中度" ∷ "customer concentration" ∷ "主要客戶" ∷ "major customer" ∷ "key customer"
    ∷ "top customer" ∷ "應收帳款集中" ∷ "concentration of receivables" ∷ "單一客戶" ∷ "single customer" ∷ "依賴"
    ∷ "dependency" ∷ "reliance" ∷ "前五大" ∷ "前十大" ∷ "top 5" ∷ "top 10" ∷ [])

abbrev customer_concentration : PatternDefinition
customer_concentration = record {
  pattern_id = "customer_concentration";
  name_zh = "客戶集中度風險";
  observation_template = "本期財報含客戶集中度相關揭露，建議確認：前幾大客戶佔營收比重、應收帳款集中情形、主要客戶訂單能見度，及單一客戶減少採購對整體營收之潛在影響。";
  required_filters =
      record {
        section_keys = some ("risk_register" ∷ "key_financials" ∷ "accounting_adjustments" ∷ []);
        materiality = none;
        recurring = none;
        claim_types = none;
        keywords = some customer_concentration_keywords;
        inspect_description = codes "客戶集中度/主要客戶/應收帳款集中相關 claim";
      }
      ∷ [];
  inspect_description = codes "risk_register/key_financials 中含客戶集中度相關 claim";
}

-- `PATTERN_REGISTRY`
abbrev pub pattern_registry : List PatternDefinition
pattern_registry =
    operating_vs_net_income ∷ non_recurring_eps ∷ fx_driven_profit ∷ expense_ratio_offset
    ∷ debt_maturity_risk ∷ customer_concentration ∷ []
